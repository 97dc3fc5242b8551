-- ===== src/Tests/Build.antt =====
-- src/index/build.rs and src/index/format.rs: two references in one partition.
use mathlib.Core.List.{Perm}
use mathlib.Core.List.Perm
use rinha_rust_tree.Prelude.{
  ℕ, zero, suc, ◌≡◌, refl, true, false, List, [], ◌∷◌, map, Option, none, some, arith, drop,
  replicate, All, get_or,
}
use rinha_rust_tree.Prelude.Int.{ℤ, pos, negsuc, ◌≤ℤ◌}
use rinha_rust_tree.Index.Table.{QueryVector, SpecialistIndex, dim, PartitionScheme, TreePredicate}
use rinha_rust_tree.Index.Reader.{Result, ok}
use rinha_rust_tree.Index.Load.Table.{IsTable, open_index-IsTable}
use rinha_rust_tree.Tests.Index.{small_index}
use rinha_rust_tree.Index.Load.{Settings, load_header, open_index}
use rinha_rust_tree.Index.Predict.{predict_fraud_count}
use rinha_rust_tree.Index.Load.RoundTrip.{
  Counts, IsWritable, written_header, loaded_header, load_header-written_header,
}
use rinha_rust_tree.Index.Layout
use rinha_rust_tree.Index.Best.{candidate_before}
use rinha_rust_tree.Index.Defer.{try_defer}
use rinha_rust_tree.Index.Scan.{lower_bound_box, lane_dist, scan_leaf_fast}
use rinha_rust_tree.Index.Scan.Bound.{
  InRange, IsInside, HoldsVector, squared_distance, lower_bound_box-le,
}
use rinha_rust_tree.Index.Build.{Reference, Building, Sort, widest, reference_at, lower, upper}
use rinha_rust_tree.Index.Build.Tree.{IsSort, IsBuilt}
use rinha_rust_tree.Index.Build.Boxes.{box_lem}
use rinha_rust_tree.Index.Build.File.{
  Meta, group_from, indices_of, keys_of, write_index, build_index,
}
use rinha_rust_tree.Index.Build.Groups.{grouped, range, AreKeyed, group_from_lem}
use rinha_rust_tree.Index.Build.Partitions.{build_index_lem}

abbrev origin : QueryVector
origin = replicate 16 (pos 0)

abbrev near : QueryVector
near = pos 3 ∷ replicate 15 (pos 0)

abbrev two_references : List Reference
two_references = record { vector = origin; label = 0 } ∷ record { vector = near; label = 1 } ∷ []

abbrev first_dimension : List TreePredicate
first_dimension = record { dim = 0; threshold = pos 1; enabled = true } ∷ []

-- the vectors above 1 in the first dimension, and the others
abbrev two_keys : PartitionScheme
two_keys = record { tree_depth = 1; tree_predicates = first_dimension }

abbrev unsorted : Sort
unsorted key indices = indices

unsorted-IsSort : IsSort unsorted
unsorted-IsSort key indices = Perm.refl indices

abbrev settings : Settings
settings = record { scale = pos 10_000; early_exit_threshold = pos 0; label_defer = false }

abbrev two_counts : Counts
two_counts = record {
  scale = pos 10_000;
  references = 2;
  partitions = 2;
  nodes = 2;
  blocks = 2;
  tree_depth = 1;
}

two_counts-IsWritable : IsWritable two_counts first_dimension
two_counts-IsWritable = record {
  scale = (omega arith, omega arith);
  references = omega arith;
  partitions = omega arith;
  nodes = omega arith;
  blocks = omega arith;
  tree_depth = omega arith;
  few = omega arith;
  valid = ((λ e. omega arith, (omega arith, omega arith)), tt);
}

load_header-written_header_example :
    (load_header settings (written_header two_counts first_dimension (7 ∷ 8 ∷ [])) 8
      ≡ ok (
        (
          loaded_header two_counts first_dimension,
          record { tree_depth = 1; tree_predicates = first_dimension },
        ),
        46,
      ))
    × (drop 46 (written_header two_counts first_dimension (7 ∷ 8 ∷ [])) ≡ 7 ∷ 8 ∷ [])
load_header-written_header_example =
    load_header-written_header settings two_counts first_dimension (7 ∷ 8 ∷ [])
      two_counts-IsWritable refl

group_from_lem_example :
    Perm (grouped (group_from two_keys 0 two_references [])) (range 0 2)
    × AreKeyed two_keys two_references (group_from two_keys 0 two_references [])
group_from_lem_example = group_from_lem two_keys two_references

build_index_lem_example :
    (st : Building) × (metas : Meta) × (build_index
        (pos 10_000)
        unsorted
        (λ keys. keys)
        widest
        1
        two_references
        8
        two_keys
      ≡ some (write_index (pos 10_000) two_references two_keys st metas))
    × All
        (λ m.
          IsBuilt two_references st.nodes st.all_blocks 0 m.1 0
            (indices_of m.0 (group_from two_keys 0 two_references [])))
        metas
    × (map (λ m. m.0) metas ≡ keys_of (group_from two_keys 0 two_references []))
build_index_lem_example =
    build_index_lem (pos 10_000) unsorted (λ keys. keys) widest 0 two_references 8 two_keys
      unsorted-IsSort (omega arith)

box_lem_example :
    All
      (λ idx.
        dim (lower two_references (0 ∷ 1 ∷ [])) 0 ≤ℤ dim (reference_at two_references idx).vector 0)
      (0 ∷ 1 ∷ [])
    × All
        (λ idx.
          dim (reference_at two_references idx).vector 0
          ≤ℤ dim (upper two_references (0 ∷ 1 ∷ [])) 0)
        (0 ∷ 1 ∷ [])
box_lem_example = box_lem two_references (0 ∷ 1 ∷ []) 0 (refl, (refl, tt))

zeros-InRange : (n d : ℕ) → InRange (get_or (replicate n (pos 0)) d (pos 0))
zeros-InRange zero d = (omega arith, omega arith)
zeros-InRange (suc n) zero = (omega arith, omega arith)
zeros-InRange (suc n) (suc d) = zeros-InRange n d

near-InRange : (d : ℕ) → InRange (dim near d)
near-InRange zero = (omega arith, omega arith)
near-InRange (suc d) = zeros-InRange 15 d

near-IsInside : IsInside origin near near near
near-IsInside = record {
  query_range = zeros-InRange 16;
  min_range = near-InRange;
  max_range = near-InRange;
  above_min = λ d. omega arith;
  below_max = λ d. omega arith;
}

-- lane 1 of the only block
abbrev one_block : List ℤ
one_block = pos 0 ∷ pos 0 ∷ pos 3 ∷ replicate 125 (pos 0)

near-HoldsVector : HoldsVector one_block 0 1 near
near-HoldsVector zero h = (refl, refl)
near-HoldsVector (suc zero) h = (refl, refl)
near-HoldsVector (suc (suc zero)) h = (refl, refl)
near-HoldsVector (suc (suc (suc zero))) h = (refl, refl)
near-HoldsVector (suc (suc (suc (suc zero)))) h = (refl, refl)
near-HoldsVector (suc (suc (suc (suc (suc zero))))) h = (refl, refl)
near-HoldsVector (suc (suc (suc (suc (suc (suc zero)))))) h = (refl, refl)
near-HoldsVector (suc (suc (suc (suc (suc (suc (suc p))))))) h = absurd (omega arith)

near_distance : squared_distance 7 0 origin near ≡ 9
unfolding squared_distance
near_distance = refl

lower_bound_box-le_example : lower_bound_box origin near near ≤ℤ lane_dist one_block 0 origin 1
lower_bound_box-le_example =
    lower_bound_box-le one_block 0 1 origin near near near near-IsInside near-InRange
      near-HoldsVector (refl, refl) (omega (arith, near_distance))

-- six dimensions at the two ends of the scale, whose squares are past 31 bits
abbrev far_below : QueryVector
far_below =
    negsuc 9_999
    ∷ negsuc 9_999
    ∷ negsuc 9_999
    ∷ pos 10_000
    ∷ pos 10_000
    ∷ pos 10_000
    ∷ pos 10_000
    ∷ negsuc 9_999
    ∷ negsuc 9_999
    ∷ pos 10_000
    ∷ pos 10_000
    ∷ pos 10_000
    ∷ pos 10_000
    ∷ negsuc 9_999
    ∷ pos 0
    ∷ pos 0
    ∷ []

wrapped_distance : lane_dist (replicate 112 (pos 10_000)) 0 far_below 0 ≡ negsuc 1_894_967_295
unfolding lane_dist
wrapped_distance = refl

abbrev file : Option (List ℕ)
file = build_index (pos 10_000) unsorted (λ keys. keys) widest 1 two_references 8 two_keys

abbrev reload : Option (List ℕ) → Option ℕ
reload none = none
reload (some bytes) = elim (open_index settings bytes) [
  | ok ix ↦ predict_fraud_count (λ entries. entries) 1 ix origin
  | _ ↦ none
]

-- The file of both partitions is loaded, and the query finds the one fraud.
two_partitions_reload : reload file ≡ some 1
unfolding build_index open_index predict_fraud_count lower_bound_box Layout.partition_min
    Layout.partition_max try_defer Layout.node_left Layout.node_right Layout.partition_root
    scan_leaf_fast Layout.node_len Layout.node_start candidate_before
two_partitions_reload = refl

abbrev index_of : Result SpecialistIndex → SpecialistIndex
index_of (ok ix) = ix
index_of _ = small_index

abbrev bytes_of : Option (List ℕ) → List ℕ
bytes_of none = []
bytes_of (some bytes) = bytes

open_index-IsTable_example : IsTable (index_of (open_index settings (bytes_of file)))
unfolding build_index open_index
open_index-IsTable_example =
    open_index-IsTable settings (bytes_of file) (index_of (open_index settings (bytes_of file)))
      refl (omega arith)
