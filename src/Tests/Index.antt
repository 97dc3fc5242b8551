-- ===== src/Tests/Index.antt =====
-- src/index: a loaded index with one partition, one leaf and two vectors.
use rinha_rust_tree.Prelude.{
  ℕ, ◌≡◌, refl, true, false, List, [], ◌∷◌, ◌++◌, some, arith, take, replicate, All,
}
use rinha_rust_tree.Prelude.Int.{pos, ◌≤ℤ◌}
use rinha_rust_tree.Index.Table.{QueryVector, SpecialistIndex}
use rinha_rust_tree.Index.Best.{candidate_before, Slot, no_best, k, insert_best_fast, insert_best}
use rinha_rust_tree.Index.Best.Sorted.{IsSorted, sorted_insert, insert_best_fast-sorted_insert}
use rinha_rust_tree.Index.Best.Nearest.{
  IsNearest, no_best-IsNearest, insert_best_fast-IsNearest, insert_best-insert_best_fast,
}
use rinha_rust_tree.Index.Scan.{scan_leaf_fast, lower_bound_box}
use rinha_rust_tree.Index.Scan.Leaf.{
  leaf_places, block_places, lane_places, slots_at, scan_leaf_fast-IsNearest, i32_min,
}
use rinha_rust_tree.Index.Predict.{
  Entry, insertion_sort, sort_partition_entries, predict_fraud_count,
}
use rinha_rust_tree.Index.Predict.Sort.{
  IsSortByBound, insertion_sort_lem, sort_partition_entries_lem,
}
use rinha_rust_tree.Index.Defer.{try_defer}
use rinha_rust_tree.Index.Layout

abbrev pub origin : QueryVector
origin = replicate 16 (pos 0)

-- both children are -1, the vectors are 0 and 1 of block 0
abbrev leaf_bytes : List ℕ
leaf_bytes = replicate 8 255 ++ (0 ∷ 0 ∷ 0 ∷ 0 ∷ 2 ∷ 0 ∷ 0 ∷ 0 ∷ replicate 64 0)

-- vector 0 is the origin, vector 1 differs from it by 3 in the first dimension
abbrev pub small_index : SpecialistIndex
small_index = record {
  reference_count = 2;
  partitions_base = replicate 80 0;
  partition_count = 1;
  key_to_partition = pos 0 ∷ [];
  active_keys = 0 ∷ [];
  partition_scheme = record { tree_depth = 0; tree_predicates = [] };
  nodes_base = leaf_bytes;
  node_count = 1;
  vectors = pos 0 ∷ pos 0 ∷ pos 3 ∷ replicate 125 (pos 0);
  labels = 0 ∷ 1 ∷ [];
  ref_indices = 7 ∷ 8 ∷ [];
  node_class_bits = [];
  early_exit_threshold = pos 0;
  label_defer = false;
}

two_places : leaf_places small_index 0 ≡ (0, 0) ∷ (0, 1) ∷ []
unfolding leaf_places block_places lane_places Layout.node_len Layout.node_start
two_places = refl

far_empty : All (λ s. i32_min ≤ℤ s.dist) no_best
far_empty = (omega arith, (omega arith, (omega arith, (omega arith, (omega arith, tt)))))

scan_leaf_fast-IsNearest_example :
    IsNearest true
      (scan_leaf_fast small_index 0 origin no_best)
      (slots_at small_index origin (leaf_places small_index 0) ++ no_best)
scan_leaf_fast-IsNearest_example =
    scan_leaf_fast-IsNearest small_index origin true 0 (no_best-IsNearest true) far_empty

-- a sort for the standard library's place
pub insertion_sort-IsSortByBound : IsSortByBound (insertion_sort [])
insertion_sort-IsSortByBound entries = insertion_sort_lem [] entries tt

abbrev near_slot : Slot
near_slot = record { dist = pos 9; label = 1; index = 8 }

no_best-IsSorted : IsSorted no_best
no_best-IsSorted = (no_best-IsNearest true).sorted

insert_best_fast-sorted_insert_example :
    insert_best_fast near_slot no_best ≡ take k (sorted_insert near_slot no_best)
insert_best_fast-sorted_insert_example =
    insert_best_fast-sorted_insert near_slot no_best refl no_best-IsSorted

insert_best_fast-IsNearest_example :
    IsNearest true (insert_best_fast near_slot no_best) (near_slot ∷ no_best)
insert_best_fast-IsNearest_example =
    insert_best_fast-IsNearest true near_slot (no_best-IsNearest true)

abbrev two_entries : List Entry
two_entries = record { bound = pos 9; idx = 0 } ∷ record { bound = pos 4; idx = 1 } ∷ []

sort_partition_entries_lem_example : IsSortByBound (sort_partition_entries (insertion_sort []))
sort_partition_entries_lem_example =
    sort_partition_entries_lem (insertion_sort []) insertion_sort-IsSortByBound

sorted_entries :
    sort_partition_entries (insertion_sort []) two_entries
    ≡ record { bound = pos 4; idx = 1 } ∷ record { bound = pos 9; idx = 0 } ∷ []
unfolding sort_partition_entries
sorted_entries = refl

one_fraud_near : predict_fraud_count (insertion_sort []) 1 small_index origin ≡ some 1
unfolding predict_fraud_count lower_bound_box Layout.partition_min Layout.partition_max try_defer
    Layout.node_left Layout.partition_root scan_leaf_fast Layout.node_len candidate_before
    Layout.node_start
one_fraud_near = refl

insert_best-insert_best_fast_example :
    (insert_best near_slot 4 (record { best = no_best; part_keys = some (replicate k 0) })).best
    ≡ insert_best_fast near_slot no_best
insert_best-insert_best_fast_example =
    insert_best-insert_best_fast near_slot 4
      (record { best = no_best; part_keys = some (replicate k 0) })
