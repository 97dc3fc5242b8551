-- ===== src/Tests/Pruned.antt =====
-- src/index: an index with a branch, and with a second partition; for the query the right subtree
-- and the second partition are too far.
use rinha_rust_tree.Prelude.{
  ℕ, zero, suc, ◌%◌, ◌<◌, ◌≡◌, refl, true, false, List, [], ◌∷◌, ◌++◌, Option, none, some, arith,
  inl, replicate, get_or, All, if◌then◌else◌,
}
use rinha_rust_tree.Prelude.Int.{ℤ, pos, negsuc, ◌≤ℤ◌, ltb_ℤ}
use rinha_rust_tree.Http.Bytes.{Bytes, codes}
use rinha_rust_tree.Api.{score, fraud_response, can_serve_fraud}
use rinha_rust_tree.Index.Layout
use rinha_rust_tree.Index.Defer.{try_defer}
use rinha_rust_tree.Index.Table.{QueryVector, SpecialistIndex, active_from}
use rinha_rust_tree.Index.Best.{candidate_before, Slot, no_best, label_sum}
use rinha_rust_tree.Index.Best.Nearest.{IsNearest, no_best-IsNearest}
use rinha_rust_tree.Index.Scan.{scan_leaf_fast, slot_of, lower_bound_box}
use rinha_rust_tree.Index.Scan.Leaf.{
  Place, IsStored, leaf_places, block_places, lane_places, slots_at, slot_at_place, i32_min,
}
use rinha_rust_tree.Index.Search.{child, search_node_iterative_fast}
use rinha_rust_tree.Index.Search.Trees.{Tree}
use rinha_rust_tree.Index.Search.Nearest.{Finds, search_node_iterative_fast-IsNearest}
use rinha_rust_tree.Index.Predict.{insertion_sort, predict_fraud_count, partition_bound}
use rinha_rust_tree.Index.Predict.Keys.{concat}
use rinha_rust_tree.Index.Predict.Valid.{IsForest, IsIndex, IsPartition, idx_of}
use rinha_rust_tree.Index.Predict.Nearest.{predict_fraud_count-IsNearest}
use rinha_rust_tree.Index.PartitionSet.{PartitionSet, from_top_keys, contains}
use rinha_rust_tree.Index.Tracked.Predict.{
  predict_fraud_count_with_stats, predict_fraud_count_in_partitions,
}
use rinha_rust_tree.Index.Tracked.Restricted.{IsKeyed, predict_fraud_count_in_partitions-IsNearest}
use rinha_rust_tree.Api.Scores.{lookup, score-IsNearest}
use rinha_rust_tree.Tests.Index.{origin, insertion_sort-IsSortByBound}

abbrev word : ℕ → List ℕ
word n = n ∷ 0 ∷ 0 ∷ 0 ∷ []

-- a record with a box from `mn` to `mx` in the first dimension, and empty in the others
abbrev record_of : List ℕ → List ℕ → ℕ → ℕ → ℕ → ℕ → List ℕ
record_of first second start len mn mx =
    first ++ second ++ word start ++ word len ++ (mn ∷ replicate 31 0) ++ (mx ∷ replicate 31 0)

abbrev leaf_of : ℕ → ℕ → ℕ → ℕ → List ℕ
leaf_of = record_of (replicate 4 255) (replicate 4 255)

-- vectors that differ in the first dimension only
abbrev block_of : ℕ → ℕ → ℕ → ℕ → ℕ → List ℤ
block_of a b c d e =
    pos a ∷ pos 0 ∷ pos b ∷ pos 0 ∷ pos c ∷ pos 0 ∷ pos d ∷ pos 0 ∷ pos e ∷ replicate 103 (pos 0)

-- Node 0 has the leaves 1, with values from 0 to 4, and 2, with 100 and 101; node 3 has 50.
abbrev pruned_index : SpecialistIndex
pruned_index = record {
  reference_count = 8;
  partitions_base = record_of (word 0) (word 0) 0 7 0 101 ++ record_of (word 1) (word 3) 0 1 50 50;
  partition_count = 2;
  key_to_partition = pos 0 ∷ pos 1 ∷ [];
  active_keys = 0 ∷ 1 ∷ [];
  partition_scheme = record { tree_depth = 0; tree_predicates = [] };
  nodes_base =
      record_of (word 1) (word 2) 0 7 0 101
      ++ leaf_of 0 5 0 4
      ++ leaf_of 1 2 100 101
      ++ leaf_of 2 1 50 50;
  node_count = 4;
  vectors = block_of 0 1 2 3 4 ++ block_of 100 101 0 0 0 ++ block_of 50 0 0 0 0;
  labels = 1 ∷ 0 ∷ 1 ∷ 0 ∷ 0 ∷ 0 ∷ 0 ∷ 0 ∷ replicate 16 1;
  ref_indices = 0 ∷ 1 ∷ 2 ∷ 3 ∷ 4 ∷ 9 ∷ 9 ∷ 9 ∷ 5 ∷ 6 ∷ 9 ∷ 9 ∷ 9 ∷ 9 ∷ 9 ∷ 9 ∷ 7 ∷ replicate 7 9;
  node_class_bits = [];
  early_exit_threshold = pos 0;
  label_defer = false;
}

-- The far vectors are frauds, and none of them is counted.
two_frauds_near : predict_fraud_count (insertion_sort []) 3 pruned_index origin ≡ some 2
unfolding predict_fraud_count lower_bound_box Layout.partition_min Layout.partition_max
    Layout.node_left Layout.node_right Layout.node_min Layout.node_max Layout.partition_root
    scan_leaf_fast Layout.node_len candidate_before Layout.node_start try_defer
two_frauds_near = refl

abbrev near_places : List Place
near_places = (0, 0) ∷ (0, 1) ∷ (0, 2) ∷ (0, 3) ∷ (0, 4) ∷ []

abbrev far_places : List Place
far_places = (1, 0) ∷ (1, 1) ∷ []

abbrev other_places : List Place
other_places = (2, 0) ∷ []

within_file :
    All (IsStored pruned_index) near_places
    × All (IsStored pruned_index) far_places
    × All (IsStored pruned_index) other_places
within_file = (ground arith, ground arith, ground arith)

near_leaf : Tree pruned_index origin 1 near_places 1 0
unfolding Layout.node_left leaf_places Layout.node_len Layout.node_start block_places lane_places
near_leaf = Tree.leaf 1 (inl refl) within_file.0

far_leaf : Tree pruned_index origin 2 far_places 1 0
unfolding Layout.node_left leaf_places Layout.node_len Layout.node_start block_places lane_places
far_leaf = Tree.leaf 2 (inl refl) within_file.1

other_leaf : Tree pruned_index origin 3 other_places 1 0
unfolding Layout.node_left leaf_places Layout.node_len Layout.node_start block_places lane_places
other_leaf = Tree.leaf 3 (inl refl) within_file.2

near_bounded :
    All
      (λ p. (child pruned_index origin 1).bound ≤ℤ (slot_at_place pruned_index origin p).dist)
      near_places
unfolding lower_bound_box Layout.node_min Layout.node_max slot_of
near_bounded = ground arith

far_bounded :
    All
      (λ p. (child pruned_index origin 2).bound ≤ℤ (slot_at_place pruned_index origin p).dist)
      far_places
unfolding lower_bound_box Layout.node_min Layout.node_max slot_of
far_bounded = ground arith

two_leaves : Tree pruned_index origin 0 (near_places ++ far_places) 3 1
unfolding Layout.node_left Layout.node_right
two_leaves = Tree.branch 0 1 2 refl refl refl refl near_leaf far_leaf near_bounded far_bounded

first_bounded :
    All
      (λ p. partition_bound pruned_index origin 0 ≤ℤ (slot_at_place pruned_index origin p).dist)
      (near_places ++ far_places)
unfolding partition_bound lower_bound_box Layout.partition_min Layout.partition_max slot_of
first_bounded = ground arith

second_bounded :
    All
      (λ p. partition_bound pruned_index origin 1 ≤ℤ (slot_at_place pruned_index origin p).dist)
      other_places
unfolding partition_bound lower_bound_box Layout.partition_min Layout.partition_max slot_of
second_bounded = ground arith

-- the vectors of the two partitions
abbrev pub pruned_places : ℕ → List Place
pruned_places zero = near_places ++ far_places
pruned_places (suc idx) = other_places

pruned-IsPartition : (idx : ℕ) → idx < 2 → IsPartition pruned_index origin 3 idx (pruned_places idx)
unfolding Layout.partition_root
pruned-IsPartition zero h = record {
  size = 3;
  depth = 1;
  tree = two_leaves;
  shallow = omega arith;
  fuelled = omega arith;
  bounded = first_bounded;
}
pruned-IsPartition (suc zero) h = record {
  size = 1;
  depth = 0;
  tree = other_leaf;
  shallow = omega arith;
  fuelled = omega arith;
  bounded = second_bounded;
}
pruned-IsPartition (suc (suc idx)) h = absurd (omega arith)

pruned_table :
    (key : ℕ)
    → ltb_ℤ (get_or pruned_index.key_to_partition key (negsuc 0)) (pos 0) ≡ false
    → idx_of pruned_index key < 2
pruned_table zero h = omega arith
pruned_table (suc zero) h = omega arith
pruned_table (suc (suc key)) h = cc

pub pruned_IsForest : IsForest pruned_index origin 3 pruned_places
unfolding active_from
pruned_IsForest = record { keys = refl; in_table = pruned_table; partitions = pruned-IsPartition }

pub pruned_IsIndex : IsIndex pruned_index origin 3 pruned_places
pruned_IsIndex = record { forest = pruned_IsForest; no_early_exit = refl; no_defer = refl }

far_empty : All (λ s. i32_min ≤ℤ s.dist) no_best
far_empty = (omega arith, (omega arith, (omega arith, (omega arith, (omega arith, tt)))))

root_bounded :
    All (λ p. pos 0 ≤ℤ (slot_at_place pruned_index origin p).dist) (near_places ++ far_places)
unfolding slot_of
root_bounded = ground arith

search_node_iterative_fast-IsNearest_example :
    Finds pruned_index origin true none
      (search_node_iterative_fast 3 pruned_index
        (record { node = 0; bound = pos 0 })
        origin
        no_best
        none)
      (near_places ++ far_places)
      no_best
search_node_iterative_fast-IsNearest_example =
    search_node_iterative_fast-IsNearest pruned_index origin true none 3 0 (pos 0) tt two_leaves
      root_bounded (omega arith) (omega arith) (no_best-IsNearest true) far_empty

predict_fraud_count-IsNearest_example :
    (best : List Slot) × (predict_fraud_count (insertion_sort []) 3 pruned_index origin
      ≡ some (label_sum best % 256))
    × IsNearest false best (
        slots_at pruned_index origin
          (concat (λ key. pruned_places (idx_of pruned_index key)) pruned_index.active_keys)
        ++ no_best)
predict_fraud_count-IsNearest_example =
    predict_fraud_count-IsNearest pruned_index origin 3 pruned_places (insertion_sort [])
      pruned_IsIndex insertion_sort-IsSortByBound

abbrev some_origin : Bytes → Option QueryVector
some_origin body = some origin

serving : can_serve_fraud some_origin (lookup (insertion_sort []) 3 pruned_index) true false ≡ true
unfolding can_serve_fraud
serving = refl

score-IsNearest_example :
    (best : List Slot) × (score some_origin
        (lookup (insertion_sort []) 3 pruned_index)
        true
        false
        (codes "{}")
      ≡ fraud_response (label_sum best % 256))
    × IsNearest false best (
        slots_at pruned_index origin
          (concat (λ key. pruned_places (idx_of pruned_index key)) pruned_index.active_keys)
        ++ no_best)
score-IsNearest_example =
    score-IsNearest some_origin true false (codes "{}") pruned_index origin 3 pruned_places
      (insertion_sort []) pruned_IsIndex insertion_sort-IsSortByBound serving refl

pruned_IsKeyed : IsKeyed pruned_index origin 3 pruned_places pruned_IsForest
unfolding Layout.partition_key
pruned_IsKeyed zero h = refl
pruned_IsKeyed (suc zero) h = refl
pruned_IsKeyed (suc (suc key)) h = cc

abbrev both_keys : PartitionSet
both_keys = from_top_keys (0 ∷ 1 ∷ [])

predict_fraud_count_in_partitions-IsNearest_example :
    (best : List Slot) × (predict_fraud_count_in_partitions
        (insertion_sort [])
        3
        pruned_index
        origin
        both_keys
      ≡ some (label_sum best % 256))
    × IsNearest false best (
        slots_at pruned_index origin (
          concat
            (λ key. if contains both_keys key then pruned_places (idx_of pruned_index key) else [])
            pruned_index.active_keys)
        ++ no_best)
predict_fraud_count_in_partitions-IsNearest_example =
    predict_fraud_count_in_partitions-IsNearest pruned_index origin 3 pruned_places both_keys
      (insertion_sort []) pruned_IsForest pruned_IsKeyed insertion_sort-IsSortByBound

-- The root and the near leaf are visited; the far leaf and the second partition are left.
stats_of_pruned :
    predict_fraud_count_with_stats (insertion_sort []) 3 pruned_index origin
    ≡ some (
      2,
      some (record {
        partitions_visited = 1;
        secondary_partitions = 0;
        nodes_visited = 2;
        leaves_scanned = 1;
        blocks_scanned = 1;
      }),
    )
unfolding predict_fraud_count_with_stats lower_bound_box Layout.partition_min Layout.partition_max
    Layout.node_left Layout.node_right Layout.node_min Layout.node_max Layout.partition_root
    Layout.node_len Layout.node_start Layout.partition_key candidate_before
stats_of_pruned = refl
