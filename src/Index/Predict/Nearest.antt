-- ===== src/Index/Predict/Nearest.antt =====
-- Without deferral and early exit, the prediction looks at K nearest of all vectors of the index.
use mathlib.Core.List.{Perm}
use mathlib.Core.List.Perm
use rinha_rust_tree.Prelude.{
  ℕ, ◌%◌, ◌≡◌, refl, ap, ◌∙◌, inl, inr, false, none, some, List, ◌++◌, arith, Bool-cases, get_or,
  All, All-append,
}
use rinha_rust_tree.Prelude.Int.{pos, negsuc, ltb_ℤ}
use rinha_rust_tree.Index.Table.{QueryVector, SpecialistIndex}
use rinha_rust_tree.Index.Best.{Slot, no_best, label_sum}
use rinha_rust_tree.Index.Best.Nearest.{IsNearest, IsNearest-perm, no_best-IsNearest}
use rinha_rust_tree.Index.Scan.Leaf.{Place, slot_at_place, slots_at, slots_at-ge, regroup-perm}
use rinha_rust_tree.Index.Defer.{PendingSubtrees, new_pending}
use rinha_rust_tree.Index.Predict.{
  Entry, early_exit, partition_bound, partition_idx_for_key, compute_partition_key,
  search_partition, search_others, predict_slots, predict_fraud_count,
}
use rinha_rust_tree.Index.Predict.Sort.{IsSortByBound}
use rinha_rust_tree.Index.Predict.Keys.{
  concat, others, others-inactive, concat-others-perm, active-IsActive,
}
use rinha_rust_tree.Index.Predict.Valid.{IsIndex, idx_of}
use rinha_rust_tree.Index.Predict.Candidates.{candidate_entries-IsReady}
use rinha_rust_tree.Index.Predict.Entries.{
  Near, Below, Finds, search_partition-Finds, search_entries-Finds, key_places, IsActive,
}

-- The two ways of the prediction to the other partitions.
module _ (sort_unstable : List Entry → List Entry) (fuel : ℕ) (ix : SpecialistIndex)
    (query : QueryVector) where
  predict_slots-none :
      partition_idx_for_key ix (compute_partition_key ix query) ≡ none
      → predict_slots sort_unstable fuel ix query
        ≡ search_others sort_unstable fuel ix query no_best (new_pending ix.label_defer)
  unfolding predict_slots
  predict_slots-none e = rw (e, predict_slots)

  predict_slots-some :
      (idx : ℕ) (own : Entry) (best : List Slot) (p : PendingSubtrees)
      → partition_idx_for_key ix (compute_partition_key ix query) ≡ some idx
      → own ≡ record { bound = partition_bound ix query idx; idx = idx }
      → search_partition fuel ix query own no_best (new_pending ix.label_defer) ≡ some (best, p)
      → early_exit ix best ≡ false
      → predict_slots sort_unstable fuel ix query ≡ search_others sort_unstable fuel ix query best p
  unfolding predict_slots
  predict_slots-some idx own best p e o f x = rw (e, predict_slots, ← o, f, x)

module _ (ix : SpecialistIndex) (query : QueryVector) (fuel : ℕ) (places : ℕ → List Place)
    (h : IsIndex ix query fuel places) (sort_unstable : List Entry → List Entry)
    (sorts : IsSortByBound sort_unstable) where
  search_others-Finds :
      {best pool : List Slot}
      → Near ix query fuel places best pool
      → Below ix query fuel places pool
      → Finds ix query fuel places
          (search_others sort_unstable fuel ix query best (new_pending false))
          (concat
            (key_places ix query fuel places h.forest)
            (others (compute_partition_key ix query) ix.active_keys))
          pool
  unfolding search_others
  search_others-Finds {best} {pool} v lo =
      let query_key = compute_partition_key ix query in
      let active : All (IsActive ix query fuel places h.forest) ix.active_keys =
        rw h.forest.keys (active-IsActive ix.key_to_partition) in
      let ready =
        candidate_entries-IsReady ix query fuel places h.forest sort_unstable query_key
          ix.active_keys sorts active v lo in
      let (best', found, v') =
        search_entries-Finds ix query fuel places h.forest h.no_early_exit _ ready.ok ready.ordered
          ready.near ready.below in
      (best', found, ready.finish best' v')

  undeferred :
      (best : List Slot)
      → search_others sort_unstable fuel ix query best (new_pending ix.label_defer)
        ≡ search_others sort_unstable fuel ix query best (new_pending false)
  undeferred best =
      ap (λ b. search_others sort_unstable fuel ix query best (new_pending b)) h.no_defer

  undeferred_own :
      (e : Entry)
      → search_partition fuel ix query e no_best (new_pending ix.label_defer)
        ≡ search_partition fuel ix query e no_best (new_pending false)
  undeferred_own e = ap (λ b. search_partition fuel ix query e no_best (new_pending b)) h.no_defer

  all_places : List Place
  all_places = concat (key_places ix query fuel places h.forest) ix.active_keys

  -- The query's own partition is searched first, where it has one.
  predict_slots-Finds :
      Finds ix query fuel places (predict_slots sort_unstable fuel ix query) all_places no_best
  unfolding all_places
  predict_slots-Finds =
      let key = compute_partition_key ix query in
      let start = no_best-IsNearest false in
      let below : Below ix query fuel places no_best = omega arith in
      elim (Bool-cases (ltb_ℤ (get_or ix.key_to_partition key (negsuc 0)) (pos 0))) [
        | inl none_own ↦
            let (best', found, v') = search_others-Finds start below in
            let same : others key ix.active_keys ≡ ix.active_keys =
              rw h.forest.keys
                (others-inactive key 0 key ix.key_to_partition (omega arith) none_own) in
            let missed : partition_idx_for_key ix key ≡ none =
              unfold partition_idx_for_key in rw none_own in
            (
              best',
              predict_slots-none sort_unstable fuel ix query missed ∙ undeferred no_best ∙ found,
              rw same at v',
            )
        | inr own ↦
            let idx = idx_of ix key in
            let e : Entry = record { bound = partition_bound ix query idx; idx = idx } in
            let (best, first, v) =
              search_partition-Finds ix query fuel places h.forest e
                (h.forest.in_table key own, refl) start below in
            let below' =
              All-append _ (slots_at ix query (places idx)) no_best
                (slots_at-ge ix query (places idx)) below in
            let (best', found, v') = search_others-Finds v below' in
            let same : Perm
                (places idx
                  ++ concat (key_places ix query fuel places h.forest) (others key ix.active_keys))
                (concat (key_places ix query fuel places h.forest) ix.active_keys) =
              rw h.forest.keys (
                concat-others-perm (key_places ix query fuel places h.forest) key 0 key
                  ix.key_to_partition (omega arith) own) in
            let hit : partition_idx_for_key ix key ≡ some idx =
              unfold partition_idx_for_key in rw own in
            let no_exit : early_exit ix best ≡ false = ground (arith, h.no_early_exit) in
            (
              best',
              predict_slots-some sort_unstable fuel ix query idx e best (new_pending false) hit refl
                    (undeferred_own e ∙ first) no_exit
                  ∙ found,
              IsNearest-perm false
                  (Perm.trans (regroup-perm ix query (places idx) _ no_best)
                    (Perm.append_right no_best (Perm.map (slot_at_place ix query) same)))
                  v',
            )
      ]

-- For a query whose bound of every box, of a partition or of a node below its root, is at most the
-- distance of each vector below, as 32 bits hold it, the prediction returns, and counts the fraud
-- labels, modulo 256, of K vectors that are nearest, by that distance, among all vectors of the
-- index and the K empty slots of the start. There is a tree in the file below every partition,
-- within the stack and the fuel, no deferral, no early exit, and a standard library sort that sorts.
pub predict_fraud_count-IsNearest :
    (ix : SpecialistIndex) (query : QueryVector) (fuel : ℕ) (places : ℕ → List Place)
    (sort_unstable : List Entry → List Entry)
    → IsIndex ix query fuel places
    → IsSortByBound sort_unstable
    → (best : List Slot) × (predict_fraud_count sort_unstable fuel ix query
        ≡ some (label_sum best % 256))
      × IsNearest false best
          (slots_at ix query (concat (λ key. places (idx_of ix key)) ix.active_keys) ++ no_best)
unfolding predict_fraud_count all_places
predict_fraud_count-IsNearest ix query fuel places sort_unstable h sorts =
    let (best, found, v) = predict_slots-Finds ix query fuel places h sort_unstable sorts in
    (best, rw (found, predict_fraud_count), v)
