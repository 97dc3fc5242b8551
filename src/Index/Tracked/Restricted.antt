-- ===== src/Index/Tracked/Restricted.antt =====
-- The restricted prediction of src/index/mod.rs looks at K nearest of all vectors of the partitions
-- that it may use.
use mathlib.Core.List.{Perm}
use mathlib.Core.List.Perm
use rinha_rust_tree.Prelude.{
  ℕ, ◌%◌, ◌≡◌, refl, inl, inr, false, some, none, Option, List, [], ◌∷◌, ◌++◌, arith, Bool-cases,
  get_or, All, All-append, ap, ◌∙◌, if◌then◌else◌,
}
use rinha_rust_tree.Prelude.Int.{pos, negsuc, ltb_ℤ, ◌≤ℤ◌}
use rinha_rust_tree.Index.Layout
use rinha_rust_tree.Index.Table.{QueryVector, SpecialistIndex}
use rinha_rust_tree.Index.Best.{Slot, kth_dist, no_best, label_sum}
use rinha_rust_tree.Index.Best.Nearest.{
  IsNearest, skipped-IsNearest, IsNearest-perm, no_best-IsNearest,
}
use rinha_rust_tree.Index.Scan.Leaf.{
  Place, slot_at_place, slots_at, slots_at-ge, i32_min, regroup-perm,
}
use rinha_rust_tree.Index.Defer.{PendingSubtrees}
use rinha_rust_tree.Index.Search.{leb_ℤ}
use rinha_rust_tree.Index.Search.Nearest.{search_node_iterative_fast-IsNearest}
use rinha_rust_tree.Index.PartitionSet.{PartitionSet, contains}
use rinha_rust_tree.Index.Predict.{
  Entry, partition_bound, partition_idx_for_key, compute_partition_key, candidate_entries,
  sort_partition_entries,
}
use rinha_rust_tree.Index.Predict.Sort.{Ascending, IsSortByBound}
use rinha_rust_tree.Index.Predict.Keys.{
  concat, others, others-inactive, concat-others-perm, active-IsActive,
}
use rinha_rust_tree.Index.Predict.Valid.{IsForest, idx_of}
use rinha_rust_tree.Index.Predict.Entries.{
  IsEntry, entry_places, Past-entries, key_places, IsActive,
}
use rinha_rust_tree.Index.Predict.Candidates.{candidate_entries-IsReady}
use rinha_rust_tree.Index.Tracked.{Tally, count, secondary_visited, search_node_iterative}
use rinha_rust_tree.Index.Tracked.Erase.{erase_tally, search_node_iterative-erase}
use rinha_rust_tree.Index.Tracked.Predict.{
  allowed_active_keys, search_tracked_partition, search_tracked_entries, search_tracked_others,
  search_own, predict_tally, predict_fraud_count_inner, predict_fraud_count_in_partitions,
}
use rinha_rust_tree.Index.Tracked.Keys.{
  keep, only, allowed_from-keep, others-keep, All-keep, concat-keep,
}

erase_inverse :
    (r : Option Tally) (best : List Slot) (p : Option PendingSubtrees)
    → erase_tally r ≡ some (best, p)
    → (t : Tally) × (r ≡ some t) × (t.tracked.best ≡ best)
erase_inverse none best p e = absurd (cc)
erase_inverse (some t) best p e = (t, refl, cc)

module _ (ix : SpecialistIndex) (query : QueryVector) (fuel : ℕ) (places : ℕ → List Place)
    (h : IsForest ix query fuel places) where
  -- The run ends, and its slots are K nearest.
  abbrev Ends : Option Tally → List Place → List Slot → Type 0
  Ends r ps pool =
      (t : Tally) × (r ≡ some t) × IsNearest false t.tracked.best (slots_at ix query ps ++ pool)

  abbrev Below : List Slot → Type 0
  Below pool = All (λ s. i32_min ≤ℤ s.dist) pool

  search_tracked_partition-Ends :
      (e : Entry) (t : Tally) {pool : List Slot}
      → IsEntry ix query fuel places e
      → IsNearest false t.tracked.best pool
      → Below pool
      → Ends (search_tracked_partition fuel ix query e t) (places e.idx) pool
  unfolding search_tracked_partition
  search_tracked_partition-Ends e t (inside, bound) v lo =
      let part = h.partitions e.idx inside in
      let root = Layout.partition_root ix.partitions_base e.idx in
      let key = Layout.partition_key ix.partitions_base e.idx in
      let (best', found, v') =
        search_node_iterative_fast-IsNearest ix query false none fuel root e.bound tt part.tree
          (rw bound at part.bounded) part.shallow part.fuelled v lo in
      let (t', ended, same) =
        erase_inverse
          (search_node_iterative fuel ix (record { node = root; bound = e.bound }) query key t)
          best' none
          (search_node_iterative-erase fuel ix (record { node = root; bound = e.bound }) query key t
            ∙ found) in
      (t', ended, rw same v')

  search_tracked_entries-Ends :
      (entries : List Entry) (t : Tally) {pool : List Slot}
      → All (IsEntry ix query fuel places) entries
      → Ascending entries
      → IsNearest false t.tracked.best pool
      → Below pool
      → Ends
          (search_tracked_entries fuel ix query (pos 0) entries t)
          (entry_places ix query fuel places entries)
          pool
  unfolding search_tracked_entries
  search_tracked_entries-Ends [] t es asc v lo = (t, refl, v)
  search_tracked_entries-Ends (e ∷ entries) t {pool} es asc v lo =
      let best = t.tracked.best in
      let rest_places = entry_places ix query fuel places entries in
      elim (Bool-cases (leb_ℤ (kth_dist best) e.bound)) [
        | inl far ↦ (
          t,
          rw (far, search_tracked_entries),
          skipped-IsNearest false (slots_at ix query (places e.idx ++ rest_places)) v (
              Past-entries ix query fuel places h best e.bound (e ∷ entries) (ground arith) es
                (omega arith, asc.0)),
        )
        | inr near ↦
            let (t', found, v') =
              search_tracked_partition-Ends e (count secondary_visited t) es.0 v lo in
            let (t'', rest, v'') = search_tracked_entries-Ends entries t' es.1 asc.1 v' (
              All-append _ (slots_at ix query (places e.idx)) pool
                (slots_at-ge ix query (places e.idx)) lo) in
            (
              t'',
              rw (near, search_tracked_entries, found) rest,
              IsNearest-perm false (regroup-perm ix query (places e.idx) rest_places pool) v'',
            )
      ]

  -- the record of each active key's partition names that key
  abbrev pub IsKeyed : Type 0
  IsKeyed =
      (key : ℕ)
      → ltb_ℤ (get_or ix.key_to_partition key (negsuc 0)) (pos 0) ≡ false
      → Layout.partition_key ix.partitions_base (idx_of ix key) ≡ key

  module _ (allowed : PartitionSet) (sort_unstable : List Entry → List Entry)
      (sorts : IsSortByBound sort_unstable) where
    -- the vectors of the key's partition, if it may be searched
    abbrev pub allowed_places : ℕ → List Place
    allowed_places = only allowed (key_places ix query fuel places h)

    search_tracked_others-Ends :
        (t : Tally) {pool : List Slot}
        → IsNearest false t.tracked.best pool
        → Below pool
        → Ends
            (search_tracked_others sort_unstable fuel ix query (some allowed) t)
            (concat allowed_places (others (compute_partition_key ix query) ix.active_keys))
            pool
    unfolding search_tracked_others allowed_active_keys
    search_tracked_others-Ends t {pool} v lo =
        let query_key = compute_partition_key ix query in
        let keys = keep allowed ix.active_keys in
        let same : allowed_active_keys ix allowed ≡ keys =
          rw h.keys (allowed_from-keep allowed 0 ix.key_to_partition) in
        let active : All (IsActive ix query fuel places h) keys =
          All-keep allowed (IsActive ix query fuel places h) ix.active_keys
            (rw h.keys (active-IsActive ix.key_to_partition)) in
        let ready =
          candidate_entries-IsReady ix query fuel places h sort_unstable query_key keys sorts active
            v lo in
        let (t', found, v') =
          search_tracked_entries-Ends _ t ready.ok ready.ordered ready.near ready.below in
        let all : concat (key_places ix query fuel places h) (others query_key keys)
            ≡ concat allowed_places (others query_key ix.active_keys) =
          rw (others-keep allowed query_key ix.active_keys) (
            concat-keep allowed (key_places ix query fuel places h)
              (others query_key ix.active_keys)) in
        let entries_of = λ (ks : List ℕ).
          sort_partition_entries sort_unstable
            (candidate_entries ix query query_key (kth_dist t.tracked.best) ks) in
        (
          t',
          ap (λ ks. search_tracked_entries fuel ix query (pos 0) (entries_of ks) t) same ∙ found,
          rw all at (ready.finish t'.tracked.best v'),
        )

    -- The query's own partition is searched if it may be.
    search_own-Ends :
        (t : Tally) {pool : List Slot}
        → ltb_ℤ (get_or ix.key_to_partition (compute_partition_key ix query) (negsuc 0)) (pos 0)
          ≡ false
        → IsKeyed
        → IsNearest false t.tracked.best pool
        → Below pool
        → (t' : Tally) × (search_own fuel ix query
              (some allowed)
              (idx_of ix (compute_partition_key ix query))
              t
            ≡ some (t', false))
          × IsNearest false t'.tracked.best
              (slots_at ix query (allowed_places (compute_partition_key ix query)) ++ pool)
    unfolding search_own
    search_own-Ends t {pool} own keyed v lo =
        let key = compute_partition_key ix query in
        let idx = idx_of ix key in
        let same = keyed key own in
        elim (Bool-cases (contains allowed key)) [
          | inl may ↦
              let (t', found, v') =
                search_tracked_partition-Ends
                  (record { bound = partition_bound ix query idx; idx = idx }) t
                  (h.in_table key own, refl) v lo in
              (t', rw (search_own, same, may, found), rw may v')
          | inr may_not ↦ (t, rw (search_own, same, may_not), rw may_not v)
        ]

    predict_tally-Ends :
        (t : Tally) {pool : List Slot}
        → IsKeyed
        → IsNearest false t.tracked.best pool
        → Below pool
        → Ends
            (predict_tally sort_unstable fuel ix query (some allowed) t)
            (concat allowed_places ix.active_keys)
            pool
    unfolding predict_tally
    predict_tally-Ends t {pool} keyed v lo =
        let key = compute_partition_key ix query in
        elim (Bool-cases (ltb_ℤ (get_or ix.key_to_partition key (negsuc 0)) (pos 0))) [
          | inl none_own ↦
              let (t', found, v') = search_tracked_others-Ends t v lo in
              let same : others key ix.active_keys ≡ ix.active_keys =
                rw h.keys (others-inactive key 0 key ix.key_to_partition (omega arith) none_own) in
              let missed : partition_idx_for_key ix key ≡ none =
                unfold partition_idx_for_key in rw none_own in
              (t', rw (missed, predict_tally) found, rw same at v')
          | inr own ↦
              let (t0, first, v0) = search_own-Ends t own keyed v lo in
              let here = allowed_places key in
              let (t', found, v') =
                search_tracked_others-Ends t0 v0
                  (All-append _ (slots_at ix query here) pool (slots_at-ge ix query here) lo) in
              let hit : partition_idx_for_key ix key ≡ some (idx_of ix key) =
                unfold partition_idx_for_key in rw own in
              let same : Perm (here ++ concat allowed_places (others key ix.active_keys))
                  (concat allowed_places ix.active_keys) =
                rw h.keys (
                  concat-others-perm allowed_places key 0 key ix.key_to_partition (omega arith)
                    own) in
              (
                t',
                rw (hit, first, predict_tally) found,
                IsNearest-perm false
                    (Perm.trans (regroup-perm ix query here _ pool)
                      (Perm.append_right pool (Perm.map (slot_at_place ix query) same)))
                    v',
              )
        ]

-- For a query whose bound of every box, of a partition or of a node below its root, is at most the
-- distance of each vector below, as 32 bits hold it, the restricted prediction returns, and counts
-- the fraud labels, modulo 256, of K vectors that are nearest, by that distance, among those of the
-- allowed partitions and the K empty slots of the start. There is a tree in the file below every
-- partition, within the stack and the fuel, a record of each active key's partition that names the
-- key, and a standard library sort that sorts. Neither deferral nor the early exit plays a part.
pub predict_fraud_count_in_partitions-IsNearest :
    (ix : SpecialistIndex) (query : QueryVector) (fuel : ℕ) (places : ℕ → List Place)
    (allowed : PartitionSet) (sort_unstable : List Entry → List Entry)
    → (h : IsForest ix query fuel places) → IsKeyed ix query fuel places h
    → IsSortByBound sort_unstable
    → (best : List Slot) × (predict_fraud_count_in_partitions sort_unstable fuel ix query allowed
        ≡ some (label_sum best % 256))
      × IsNearest false best (
          slots_at ix query (
            concat
              (λ key. if contains allowed key then places (idx_of ix key) else [])
              ix.active_keys)
          ++ no_best)
unfolding predict_fraud_count_in_partitions
predict_fraud_count_in_partitions-IsNearest ix query fuel places allowed sort_unstable h keyed
      sorts =
    let start : Tally = record {
      tracked = record { best = no_best; part_keys = none };
      stats = none;
    } in
    let (t, found, v) =
      predict_tally-Ends ix query fuel places h allowed sort_unstable sorts start keyed
        (no_best-IsNearest false) (omega arith) in
    (t.tracked.best, rw (found, predict_fraud_count_in_partitions, predict_fraud_count_inner), v)
