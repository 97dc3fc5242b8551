-- ===== src/Index/Predict/Valid.antt =====
-- What is asked of an index and a query for the prediction of src/index/mod.rs: a tree below every
-- partition, within the stack and the fuel, where no box has a bound above the distance of a vector
-- in it. The distance is the 32-bit one of the scan, which may wrap for a query that is far away.

use rinha_rust_tree.Prelude.{ℕ, ◌≤◌, ◌<◌, ◌≡◌, false, List, get_or, All}
use rinha_rust_tree.Prelude.Int.{pos, negsuc, ◌≤ℤ◌, ltb_ℤ}
use rinha_rust_tree.Index.Words.{as_usize}
use rinha_rust_tree.Index.Layout
use rinha_rust_tree.Index.Table.{QueryVector, SpecialistIndex, active_from}
use rinha_rust_tree.Index.Scan.Leaf.{Place, slot_at_place}
use rinha_rust_tree.Index.Search.{tree_stack_capacity}
use rinha_rust_tree.Index.Search.Trees.{Tree}
use rinha_rust_tree.Index.Predict.{partition_bound}

-- A partition's record leads to a tree that is shallow enough for the stack, has no more nodes than
-- the fuel, and whose box bounds the distances.
pub record IsPartition (ix : SpecialistIndex) (query : QueryVector) (fuel idx : ℕ) (ps : List Place)
    : Type 0 where
  pub size : ℕ
  pub depth : ℕ
  pub tree : Tree ix query (Layout.partition_root ix.partitions_base idx) ps size depth
  pub shallow : depth ≤ tree_stack_capacity
  pub fuelled : size ≤ fuel
  pub bounded : All (λ p. partition_bound ix query idx ≤ℤ (slot_at_place ix query p).dist) ps

-- the partition of an active key
abbrev pub idx_of : SpecialistIndex → ℕ → ℕ
idx_of ix key = as_usize (get_or ix.key_to_partition key (negsuc 0))

-- A loaded index with its trees; `places idx` are the vectors of partition `idx`.
pub record IsForest (ix : SpecialistIndex) (query : QueryVector) (fuel : ℕ)
    (places : ℕ → List Place) : Type 0 where
  pub keys : ix.active_keys ≡ active_from 0 ix.key_to_partition
  pub in_table :
      (key : ℕ)
      → ltb_ℤ (get_or ix.key_to_partition key (negsuc 0)) (pos 0) ≡ false
      → idx_of ix key < ix.partition_count
  pub partitions : (idx : ℕ) → idx < ix.partition_count → IsPartition ix query fuel idx (places idx)

-- An index whose search is exact for the query.
pub record IsIndex (ix : SpecialistIndex) (query : QueryVector) (fuel : ℕ) (places : ℕ → List Place)
    : Type 0 where
  pub forest : IsForest ix query fuel places
  pub no_early_exit : ix.early_exit_threshold ≡ pos 0
  pub no_defer : ix.label_defer ≡ false
