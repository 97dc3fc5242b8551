-- ===== src/Index/Tracked/Predict.antt =====
-- `predict_fraud_count_inner` of src/index/mod.rs, which can be restricted to some partitions, and its
-- three callers.
use rinha_rust_tree.Prelude.{
  ℕ, ◌+◌, ◌%◌, Bool, true, false, ◌&&◌, List, [], ◌∷◌, Option, none, some, if◌then◌else◌, replicate,
}
use rinha_rust_tree.Prelude.Int.{ℤ, pos, ltb_ℤ}
use rinha_rust_tree.Index.Layout
use rinha_rust_tree.Index.Table.{QueryVector, SpecialistIndex}
use rinha_rust_tree.Index.Best.{k, kth_dist, no_best, u32_max, label_sum}
use rinha_rust_tree.Index.Defer.{Frame}
use rinha_rust_tree.Index.Search.{leb_ℤ}
use rinha_rust_tree.Index.PartitionSet.{PartitionSet, contains, from_top_keys}
use rinha_rust_tree.Index.Predict.{
  Entry, partition_bound, partition_idx_for_key, compute_tree_key, compute_partition_key,
  candidate_entries, sort_partition_entries,
}
use rinha_rust_tree.Index.Tracked.{
  SearchStats, Tally, count, secondary_visited, search_node_iterative,
}

unfoldable pub partition_search_allowed : ℕ → Option PartitionSet → Bool
partition_search_allowed key none = true
partition_search_allowed key (some s) = contains s key

-- `for key in 0..KEY_LOOKUP_SIZE` over the rest of the table, from `key` on
unfoldable pub allowed_from : PartitionSet → ℕ → List ℤ → List ℕ
allowed_from allowed key [] = []
allowed_from allowed key (idx ∷ table) =
    let rest = allowed_from allowed (key + 1) table in
    if contains allowed key && leb_ℤ (pos 0) idx then key ∷ rest else rest

unfoldable pub allowed_active_keys : SpecialistIndex → PartitionSet → List ℕ
unfolding allowed_from
allowed_active_keys ix allowed = allowed_from allowed 0 ix.key_to_partition

unfoldable pub candidate_keys : SpecialistIndex → Option PartitionSet → List ℕ
unfolding allowed_active_keys
candidate_keys ix none = ix.active_keys
candidate_keys ix (some allowed) = allowed_active_keys ix allowed

-- `eet`
unfoldable pub exit_threshold : SpecialistIndex → Option PartitionSet → ℤ
exit_threshold ix none = ix.early_exit_threshold
exit_threshold ix (some allowed) = pos 0

-- `eet > 0 && best_dists[K - 1] < eet`
abbrev pub exits : ℤ → Tally → Bool
exits eet t = ltb_ℤ (pos 0) eet && ltb_ℤ (kth_dist t.tracked.best) eet

-- the search of one partition, under its own key
unfoldable pub search_tracked_partition :
    ℕ → SpecialistIndex → QueryVector → Entry → Tally → Option Tally
unfolding search_node_iterative
search_tracked_partition fuel ix query e t =
    let root : Frame = record {
      node = Layout.partition_root ix.partitions_base e.idx;
      bound = e.bound;
    } in
    search_node_iterative fuel ix root query (Layout.partition_key ix.partitions_base e.idx) t

unfoldable pub search_tracked_entries :
    ℕ → SpecialistIndex → QueryVector → ℤ → List Entry → Tally → Option Tally
unfolding search_tracked_partition
search_tracked_entries fuel ix query eet [] t = some t
search_tracked_entries fuel ix query eet (e ∷ entries) t =
    elim (leb_ℤ (kth_dist t.tracked.best) e.bound) [
      | true ↦ some t
      | false ↦ elim (search_tracked_partition fuel ix query e (count secondary_visited t)) [
        | none ↦ none
        | some t' ↦ elim (exits eet t') [
          | true ↦ some t'
          | false ↦ search_tracked_entries fuel ix query eet entries t'
        ]
      ]
    ]

-- the part behind the query's own partition
unfoldable pub search_tracked_others :
    (List Entry → List Entry)
    → ℕ
    → SpecialistIndex
    → QueryVector
    → Option PartitionSet
    → Tally
    → Option Tally
unfolding search_tracked_entries candidate_keys exit_threshold candidate_entries
    sort_partition_entries
search_tracked_others sort_unstable fuel ix query allowed t =
    let query_key = compute_partition_key ix query in
    let entries =
      candidate_entries ix query query_key (kth_dist t.tracked.best) (candidate_keys ix allowed) in
    search_tracked_entries fuel ix query (exit_threshold ix allowed)
      (sort_partition_entries sort_unstable entries) t

-- The query's own partition, where it is allowed. The flag is the early `return`.
unfoldable pub search_own :
    ℕ → SpecialistIndex → QueryVector → Option PartitionSet → ℕ → Tally → Option (Tally × Bool)
unfolding search_tracked_partition exit_threshold partition_search_allowed partition_bound
search_own fuel ix query allowed idx t =
    let own : Entry = record { bound = partition_bound ix query idx; idx = idx } in
    elim (partition_search_allowed (Layout.partition_key ix.partitions_base idx) allowed) [
      | false ↦ some (t, false)
      | true ↦ elim (search_tracked_partition fuel ix query own t) [
        | none ↦ none
        | some t' ↦ some (t', exits (exit_threshold ix allowed) t')
      ]
    ]

-- the slots and the statistics at the `return`
unfoldable pub predict_tally :
    (List Entry → List Entry)
    → ℕ
    → SpecialistIndex
    → QueryVector
    → Option PartitionSet
    → Tally
    → Option Tally
unfolding search_own search_tracked_others
predict_tally sort_unstable fuel ix query allowed t =
    elim (partition_idx_for_key ix (compute_partition_key ix query)) [
      | none ↦ search_tracked_others sort_unstable fuel ix query allowed t
      | some idx ↦ elim (search_own fuel ix query allowed idx t) [
        | none ↦ none
        | some (t', true) ↦ some t'
        | some (t', false) ↦ search_tracked_others sort_unstable fuel ix query allowed t'
      ]
    ]

-- `keys.fill(u32::MAX)`
abbrev pub fill : Bool → Option (List ℕ)
fill track = if track then some (replicate k u32_max) else none

-- the count, and what the search wrote
unfoldable pub predict_fraud_count_inner :
    (List Entry → List Entry)
    → ℕ
    → SpecialistIndex
    → QueryVector
    → Option SearchStats
    → Option PartitionSet
    → Bool
    → Option (ℕ × Tally)
unfolding predict_tally partition_idx_for_key compute_tree_key
predict_fraud_count_inner sort_unstable fuel ix query stats allowed track =
    let start : Tally = record {
      tracked = record { best = no_best; part_keys = fill track };
      stats = stats;
    } in
    elim (predict_tally sort_unstable fuel ix query allowed start) [
      | none ↦ none
      | some t ↦ some (label_sum t.tracked.best % 256, t)
    ]

abbrev no_stats : SearchStats
no_stats = record {
  partitions_visited = 0;
  secondary_partitions = 0;
  nodes_visited = 0;
  leaves_scanned = 0;
  blocks_scanned = 0;
}

unfoldable pub predict_fraud_count_with_stats :
    (List Entry → List Entry) → ℕ → SpecialistIndex → QueryVector → Option (ℕ × Option SearchStats)
unfolding predict_fraud_count_inner
predict_fraud_count_with_stats sort_unstable fuel ix query =
    elim (predict_fraud_count_inner sort_unstable fuel ix query (some no_stats) none false) [
      | none ↦ none
      | some (count, t) ↦ some (count, t.stats)
    ]

-- the keys that were tracked
abbrev tracked_keys : Option (List ℕ) → List ℕ
tracked_keys none = replicate k u32_max
tracked_keys (some keys) = keys

unfoldable pub predict_fraud_count_with_partitions :
    (List Entry → List Entry) → ℕ → SpecialistIndex → QueryVector → Option (ℕ × PartitionSet)
unfolding predict_fraud_count_inner from_top_keys
predict_fraud_count_with_partitions sort_unstable fuel ix query =
    elim (predict_fraud_count_inner sort_unstable fuel ix query none none true) [
      | none ↦ none
      | some (count, t) ↦ some (count, from_top_keys (tracked_keys t.tracked.part_keys))
    ]

unfoldable pub predict_fraud_count_in_partitions :
    (List Entry → List Entry) → ℕ → SpecialistIndex → QueryVector → PartitionSet → Option ℕ
unfolding predict_fraud_count_inner contains
predict_fraud_count_in_partitions sort_unstable fuel ix query allowed =
    elim (predict_fraud_count_inner sort_unstable fuel ix query none (some allowed) false) [
      | none ↦ none
      | some (count, t) ↦ some count
    ]
