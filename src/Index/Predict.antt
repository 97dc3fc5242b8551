-- ===== src/Index/Predict.antt =====
-- `predict_fraud_count` of src/index/mod.rs, with `replay_pending_if_needed` and
-- `sort_partition_entries` of src/index/search.rs. More than 32 entries are sorted by the standard
-- library's `sort_unstable_by_key`, which is the parameter `sort_unstable`.
pub mod Sort
pub mod Keys
pub mod Valid
pub mod Entries
pub mod Candidates
pub mod Nearest
use mathlib.Core.List.{reverse}
use rinha_rust_tree.Prelude.{
  ℕ, zero, suc, ◌+◌, ◌*◌, ◌%◌, ◌^◌, min, Bool, true, false, ◌&&◌, List, [], ◌∷◌, ◌++◌, Option, none,
  some, ltb, leb, ◌==◌, if◌then◌else◌, length, get_elem?, get_or,
}
use rinha_rust_tree.Prelude.Int.{ℤ, pos, negsuc, ltb_ℤ}
use rinha_rust_tree.Index.Words.{as_usize}
use rinha_rust_tree.Index.Layout
use rinha_rust_tree.Index.Table.{QueryVector, dim, TreePredicate, PartitionScheme, SpecialistIndex}
use rinha_rust_tree.Index.Best.{Slot, kth_dist, no_best, label_sum}
use rinha_rust_tree.Index.Scan.{lower_bound_box}
use rinha_rust_tree.Index.Defer.{Frame, PendingSubtrees, new_pending, should_replay}
use rinha_rust_tree.Index.Search.{leb_ℤ, search_node_iterative_fast}

-- One level of the loop of `compute_tree_key` (src/index/partition_scheme.rs): `key` and `node`.
unfoldable pub tree_side : QueryVector → List TreePredicate → ℕ → Bool
tree_side vector predicates node = elim (get_elem? predicates node) [
  | some p ↦ p.enabled && ltb_ℤ p.threshold (dim vector p.dim)
  | none ↦ false
]

unfoldable pub tree_walk : ℕ → QueryVector → List TreePredicate → ℕ → ℕ → ℕ
unfolding tree_side
tree_walk zero vector predicates key node = key
tree_walk (suc n) vector predicates key node =
    let side : ℕ = if tree_side vector predicates node then 1 else 0 in
    tree_walk n vector predicates (key * 2 % 2 ^ 32 + side) (node * 2 + 1 + side)

abbrev pub learned_tree_max_depth : ℕ
learned_tree_max_depth = 10

unfoldable pub compute_tree_key : QueryVector → ℕ → List TreePredicate → ℕ
unfolding tree_walk
compute_tree_key vector tree_depth predicates =
    tree_walk (min tree_depth learned_tree_max_depth) vector predicates 0 0

abbrev pub compute_partition_key : SpecialistIndex → QueryVector → ℕ
compute_partition_key ix vector =
    compute_tree_key vector ix.partition_scheme.tree_depth ix.partition_scheme.tree_predicates

unfoldable pub partition_idx_for_key : SpecialistIndex → ℕ → Option ℕ
partition_idx_for_key ix key =
    let idx = get_or ix.key_to_partition key (negsuc 0) in
    if leb_ℤ (pos 0) idx then some (as_usize idx) else none

-- a partition to search: the lower bound of its box, and its index
pub record Entry : Type 0 where
  pub bound : ℤ
  pub idx : ℕ

unfoldable pub partition_bound : SpecialistIndex → QueryVector → ℕ → ℤ
partition_bound ix query idx =
    lower_bound_box query (Layout.partition_min ix.partitions_base idx)
      (Layout.partition_max ix.partitions_base idx)

-- The prefix `entries[..=i]` is kept from its end on: the entry moves down past larger bounds.
unfoldable pub sift_down : Entry → List Entry → List Entry
sift_down e [] = e ∷ []
sift_down e (p ∷ prefix) = if ltb_ℤ e.bound p.bound then p ∷ sift_down e prefix else e ∷ p ∷ prefix

unfoldable pub insertion_sort : List Entry → List Entry → List Entry
unfolding sift_down
insertion_sort prefix [] = reverse prefix
insertion_sort prefix (e ∷ entries) = insertion_sort (sift_down e prefix) entries

unfoldable pub sort_partition_entries : (List Entry → List Entry) → List Entry → List Entry
unfolding insertion_sort
sort_partition_entries sort_unstable entries =
    if leb (length entries) 32 then insertion_sort [] entries else sort_unstable entries

abbrev pub Outcome : Type 0
Outcome = Option (List Slot × PendingSubtrees)

-- `while let Some((root, bound)) = pending_subtrees.pop()`; the searches put nothing off.
unfoldable pub replay_loop :
    ℕ → SpecialistIndex → QueryVector → Bool → Option ℕ → List Frame → List Slot → Outcome
replay_loop fuel ix query enabled label [] best =
    some (best, record { enabled = enabled; label = none; stack = [] })
replay_loop fuel ix query enabled label (f ∷ rest) best =
    let skip = replay_loop fuel ix query enabled label rest best in
    if ltb_ℤ (kth_dist best) f.bound
    then skip
    else elim (search_node_iterative_fast fuel ix f query best none) [
      | none ↦ none
      | some (best', _) ↦ replay_loop fuel ix query enabled label rest best'
    ]

unfoldable pub replay_pending_if_needed :
    ℕ → SpecialistIndex → QueryVector → PendingSubtrees → List Slot → Outcome
unfolding replay_loop should_replay
replay_pending_if_needed fuel ix query p best =
    if should_replay p best
    then replay_loop fuel ix query p.enabled p.label p.stack best
    else some (best, p)

-- One partition: the search of its tree, then the replay.
unfoldable pub search_partition :
    ℕ → SpecialistIndex → QueryVector → Entry → List Slot → PendingSubtrees → Outcome
unfolding search_node_iterative_fast replay_pending_if_needed
search_partition fuel ix query e best p =
    let root : Frame = record {
      node = Layout.partition_root ix.partitions_base e.idx;
      bound = e.bound;
    } in
    elim (search_node_iterative_fast fuel ix root query best (some p)) [
      | none ↦ none
      | some (best', none) ↦ none
      | some (best', some p') ↦ replay_pending_if_needed fuel ix query p' best'
    ]

-- The other partitions that may hold a nearer vector.
unfoldable pub candidate_entries : SpecialistIndex → QueryVector → ℕ → ℤ → List ℕ → List Entry
unfolding partition_bound
candidate_entries ix query query_key limit [] = []
candidate_entries ix query query_key limit (key ∷ keys) =
    let rest = candidate_entries ix query query_key limit keys in
    let idx = as_usize (get_or ix.key_to_partition key (negsuc 0)) in
    let bound = partition_bound ix query idx in
    if key == query_key
    then rest
    else if ltb_ℤ bound limit
    then record { bound = bound; idx = idx } ∷ rest
    else rest

-- `eet > 0 && best_dists[K - 1] < eet`
abbrev pub early_exit : SpecialistIndex → List Slot → Bool
early_exit ix best =
    ltb_ℤ (pos 0) ix.early_exit_threshold && ltb_ℤ (kth_dist best) ix.early_exit_threshold

unfoldable pub search_entries :
    ℕ → SpecialistIndex → QueryVector → List Entry → List Slot → PendingSubtrees → Outcome
unfolding search_partition
search_entries fuel ix query [] best p = some (best, p)
search_entries fuel ix query (e ∷ entries) best p = elim (leb_ℤ (kth_dist best) e.bound) [
  | true ↦ some (best, p)
  | false ↦ elim (search_partition fuel ix query e best p) [
    | none ↦ none
    | some (best', p') ↦ elim (early_exit ix best') [
      | true ↦ some (best', p')
      | false ↦ search_entries fuel ix query entries best' p'
    ]
  ]
]

-- The part behind the query's own partition.
unfoldable pub search_others :
    (List Entry → List Entry)
    → ℕ
    → SpecialistIndex
    → QueryVector
    → List Slot
    → PendingSubtrees
    → Outcome
unfolding search_entries candidate_entries sort_partition_entries
search_others sort_unstable fuel ix query best p =
    let query_key = compute_partition_key ix query in
    let entries = candidate_entries ix query query_key (kth_dist best) ix.active_keys in
    search_entries fuel ix query (sort_partition_entries sort_unstable entries) best p

-- The slots and the pending subtrees at the `return`.
unfoldable pub predict_slots :
    (List Entry → List Entry) → ℕ → SpecialistIndex → QueryVector → Outcome
predict_slots sort_unstable fuel ix query =
    let p = new_pending ix.label_defer in
    elim (partition_idx_for_key ix (compute_partition_key ix query)) [
      | none ↦ search_others sort_unstable fuel ix query no_best p
      | some idx ↦
          let own : Entry = record { bound = partition_bound ix query idx; idx = idx } in
          elim (search_partition fuel ix query own no_best p) [
            | none ↦ none
            | some (best, p') ↦
                if early_exit ix best
                then some (best, p')
                else search_others sort_unstable fuel ix query best p'
          ]
    ]

-- The number of frauds among the K nearest, `none` where the fuel ran out.
unfoldable pub predict_fraud_count :
    (List Entry → List Entry) → ℕ → SpecialistIndex → QueryVector → Option ℕ
unfolding predict_slots search_others search_partition partition_idx_for_key compute_tree_key
    partition_bound
predict_fraud_count sort_unstable fuel ix query = elim (predict_slots sort_unstable fuel ix query) [
  | none ↦ none
  | some (best, _) ↦ some (label_sum best % 256)
]
