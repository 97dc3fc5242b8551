-- ===== src/Index/Table.antt =====
-- src/index/mod.rs: the loaded index. The pointers into the mapping are the lists that they lead
-- to; the mapping itself and the formats of the log lines are left out.
use rinha_rust_tree.Prelude.{ℕ, ◌+◌, Bool, List, [], ◌∷◌, if◌then◌else◌, get_or}
use rinha_rust_tree.Prelude.Int.{ℤ, pos, ltb_ℤ}

-- `QueryVector`, 16 values of i16
abbrev pub QueryVector : Type 0
QueryVector = List ℤ

abbrev pub dim : QueryVector → ℕ → ℤ
dim v d = get_or v d (pos 0)

pub record TreePredicate : Type 0 where
  pub dim : ℕ
  pub threshold : ℤ
  pub enabled : Bool

pub record PartitionScheme : Type 0 where
  pub tree_depth : ℕ
  pub tree_predicates : List TreePredicate

pub record SpecialistIndex : Type 0 where
  pub reference_count : ℕ
  pub partitions_base : List ℕ
  pub partition_count : ℕ
  pub key_to_partition : List ℤ
  pub active_keys : List ℕ
  pub partition_scheme : PartitionScheme
  pub nodes_base : List ℕ
  pub node_count : ℕ
  pub vectors : List ℤ
  pub labels : List ℕ
  pub ref_indices : List ℕ
  pub node_class_bits : List ℕ
  pub early_exit_threshold : ℤ
  pub label_defer : Bool

-- The loop of `load` that fills `active_keys`, from key `i` on.
unfoldable pub active_from : ℕ → List ℤ → List ℕ
active_from i [] = []
active_from i (idx ∷ table) =
    let rest = active_from (i + 1) table in if ltb_ℤ idx (pos 0) then rest else i ∷ rest
