-- ===== src/Index/Tracked/Same.antt =====
-- The prediction of src/index/mod.rs that keeps statistics and partition keys, and the fast one.
use rinha_rust_tree.Prelude.{
  ℕ, ◌%◌, ◌≡◌, refl, Bool, true, false, Option, none, some, List, [], ◌∷◌, inl, inr, Bool-cases,
  Option-cases, if◌then◌else◌, ap, ◌∙◌, sym,
}
use rinha_rust_tree.Index.Layout
use rinha_rust_tree.Index.Table.{QueryVector, SpecialistIndex}
use rinha_rust_tree.Index.Best.{Slot, kth_dist, no_best, label_sum}
use rinha_rust_tree.Index.Defer.{Frame, PendingSubtrees, new_pending, should_replay}
use rinha_rust_tree.Index.Search.{leb_ℤ}
use rinha_rust_tree.Index.Search.Pending.{put_outcome, search_node_iterative_fast-put}
use rinha_rust_tree.Index.Predict.{
  Entry, Outcome, partition_bound, partition_idx_for_key, compute_partition_key, early_exit,
  search_partition, search_entries, search_others, predict_slots, predict_fraud_count,
  replay_pending_if_needed,
}
use rinha_rust_tree.Index.Tracked.{
  SearchStats, Tally, count, secondary_visited, search_node_iterative,
}
use rinha_rust_tree.Index.Tracked.Erase.{erase_tally, search_node_iterative-erase}
use rinha_rust_tree.Index.Tracked.Predict.{
  fill, exits, search_tracked_partition, search_tracked_entries, search_tracked_others, search_own,
  predict_tally, predict_fraud_count_inner,
}

-- the slots, with nothing put off
-- the count of a prediction
abbrev pub count_of : Option (ℕ × Tally) → Option ℕ
count_of none = none
count_of (some (n, t)) = some n

abbrev outcome : Option Tally → Outcome
outcome none = none
outcome (some t) = some (t.tracked.best, new_pending false)

-- the early exit behind a partition
exit_case :
    (b : Bool) (t : Tally) (r : Outcome) (r' : Option Tally)
    → r ≡ outcome r'
    → (let x : Outcome = elim b [ true ↦ some (t.tracked.best, new_pending false) | false ↦ r ] in
        x)
      ≡ outcome (elim b [ true ↦ some t | false ↦ r' ])
exit_case true t r r' e = refl
exit_case false t r r' e = e

exit_if :
    (b : Bool) (t : Tally) (r : Outcome) (r' : Option Tally)
    → r ≡ outcome r'
    → (if b then some (t.tracked.best, new_pending false) else r)
      ≡ outcome (elim b [ true ↦ some t | false ↦ r' ])
exit_if true t r r' e = refl
exit_if false t r r' e = e

abbrev replayed :
    ℕ → SpecialistIndex → QueryVector → Option (List Slot × Option PendingSubtrees) → Outcome
replayed fuel ix query r = elim r [
  | none ↦ none
  | some (best', none) ↦ none
  | some (best', some p') ↦ replay_pending_if_needed fuel ix query p' best'
]

module _ (fuel : ℕ) (ix : SpecialistIndex) (query : QueryVector) where
  replayed-outcome :
      (r : Option Tally)
      → replayed fuel ix query (put_outcome (some (new_pending false)) (erase_tally r)) ≡ outcome r
  unfolding replay_pending_if_needed should_replay
  replayed-outcome none = refl
  replayed-outcome (some t) = refl

  search_partition-outcome :
      (e : Entry) (t : Tally)
      → search_partition fuel ix query e t.tracked.best (new_pending false)
        ≡ outcome (search_tracked_partition fuel ix query e t)
  unfolding search_partition search_tracked_partition
  search_partition-outcome e t =
      let root : Frame = record {
        node = Layout.partition_root ix.partitions_base e.idx;
        bound = e.bound;
      } in
      let key = Layout.partition_key ix.partitions_base e.idx in
      let pending = some (new_pending false) in
      let put_off = search_node_iterative_fast-put pending fuel ix root query t.tracked.best refl in
      let erased = search_node_iterative-erase fuel ix root query key t in
      ap (replayed fuel ix query) (put_off ∙ ap (put_outcome pending) (sym erased))
      ∙ replayed-outcome (search_node_iterative fuel ix root query key t)

  search_entries-outcome :
      (entries : List Entry) (t : Tally)
      → search_entries fuel ix query entries t.tracked.best (new_pending false)
        ≡ outcome (search_tracked_entries fuel ix query ix.early_exit_threshold entries t)
  unfolding search_entries search_tracked_entries
  search_entries-outcome [] t = refl
  search_entries-outcome (e ∷ entries) t =
      elim (Bool-cases (leb_ℤ (kth_dist t.tracked.best) e.bound)) [
        | inl far ↦ rw (far, search_entries, search_tracked_entries)
        | inr near ↦
            let t0 = count secondary_visited t in
            let same = search_partition-outcome e t0 in
            elim (Option-cases (search_tracked_partition fuel ix query e t0)) [
              | inl out ↦
                  let same' = rw out at same in
                  rw (near, search_entries, search_tracked_entries, same', out)
              | inr (t', found) ↦
                  let same' = rw found at same in
                  rw (near, search_entries, search_tracked_entries, same', found)
                    (exit_case (exits ix.early_exit_threshold t') t' _ _
                      (search_entries-outcome entries t'))
            ]
      ]

  search_others-outcome :
      (sort_unstable : List Entry → List Entry) (t : Tally)
      → search_others sort_unstable fuel ix query t.tracked.best (new_pending false)
        ≡ outcome (search_tracked_others sort_unstable fuel ix query none t)
  unfolding search_others search_tracked_others
  search_others-outcome sort_unstable t = search_entries-outcome _ t

  -- behind the query's own partition
  abbrev own_case : (List Entry → List Entry) → Outcome → Outcome
  own_case sort_unstable r = elim r [
    | none ↦ none
    | some (best, p') ↦
        if early_exit ix best
        then some (best, p')
        else search_others sort_unstable fuel ix query best p'
  ]

  abbrev tracked_case : (List Entry → List Entry) → Option Tally → Option Tally
  tracked_case sort_unstable r = elim r [
    | none ↦ none
    | some t ↦ elim (exits ix.early_exit_threshold t) [
      | true ↦ some t
      | false ↦ search_tracked_others sort_unstable fuel ix query none t
    ]
  ]

  own_case-outcome :
      (sort_unstable : List Entry → List Entry) (r : Option Tally)
      → own_case sort_unstable (outcome r) ≡ outcome (tracked_case sort_unstable r)
  own_case-outcome sort_unstable none = refl
  own_case-outcome sort_unstable (some t) =
      exit_if (exits ix.early_exit_threshold t) t _ _ (search_others-outcome sort_unstable t)

  -- the prediction from the index of the query's own partition on
  abbrev from_own : (List Entry → List Entry) → Option ℕ → List Slot → PendingSubtrees → Outcome
  from_own sort_unstable none best p = search_others sort_unstable fuel ix query best p
  from_own sort_unstable (some idx) best p = own_case sort_unstable (
      search_partition fuel ix query (record { bound = partition_bound ix query idx; idx = idx })
        best p)

  abbrev tracked_from_own : (List Entry → List Entry) → Option ℕ → Tally → Option Tally
  tracked_from_own sort_unstable none t = search_tracked_others sort_unstable fuel ix query none t
  tracked_from_own sort_unstable (some idx) t = tracked_case sort_unstable (
      search_tracked_partition fuel ix query
        (record { bound = partition_bound ix query idx; idx = idx }) t)

  from_own-outcome :
      (sort_unstable : List Entry → List Entry) (own : Option ℕ) (t : Tally)
      → from_own sort_unstable own t.tracked.best (new_pending false)
        ≡ outcome (tracked_from_own sort_unstable own t)
  from_own-outcome sort_unstable none t = search_others-outcome sort_unstable t
  from_own-outcome sort_unstable (some idx) t =
      let e : Entry = record { bound = partition_bound ix query idx; idx = idx } in
      ap (own_case sort_unstable) (search_partition-outcome e t)
      ∙ own_case-outcome sort_unstable (search_tracked_partition fuel ix query e t)

  abbrev after_own : (List Entry → List Entry) → Option (Tally × Bool) → Option Tally
  after_own sort_unstable r = elim r [
    | none ↦ none
    | some (t', true) ↦ some t'
    | some (t', false) ↦ search_tracked_others sort_unstable fuel ix query none t'
  ]

  after_exit :
      (sort_unstable : List Entry → List Entry) (b : Bool) (t : Tally)
      → after_own sort_unstable (some (t, b)) ≡ elim b [
        | true ↦ some t
        | false ↦ search_tracked_others sort_unstable fuel ix query none t
      ]
  after_exit sort_unstable true t = refl
  after_exit sort_unstable false t = refl

  own_tally :
      (sort_unstable : List Entry → List Entry) (idx : ℕ) (t : Tally)
      → after_own sort_unstable (search_own fuel ix query none idx t)
        ≡ tracked_from_own sort_unstable (some idx) t
  unfolding search_own
  own_tally sort_unstable idx t =
      let e : Entry = record { bound = partition_bound ix query idx; idx = idx } in
      elim (Option-cases (search_tracked_partition fuel ix query e t)) [
        | inl out ↦ rw (out, search_own)
        | inr (t', found) ↦
            rw (found, search_own) (after_exit sort_unstable (exits ix.early_exit_threshold t') t')
      ]

  predict_tally-from_own :
      (sort_unstable : List Entry → List Entry) (t : Tally)
      → predict_tally sort_unstable fuel ix query none t
        ≡ tracked_from_own sort_unstable
            (partition_idx_for_key ix (compute_partition_key ix query))
            t
  unfolding predict_tally search_own
  predict_tally-from_own sort_unstable t =
      elim (Option-cases (partition_idx_for_key ix (compute_partition_key ix query))) [
        | inl e ↦ rw (e, predict_tally)
        | inr (idx, e) ↦ rw (e, predict_tally) (own_tally sort_unstable idx t)
      ]

  predict_slots-from_own :
      (sort_unstable : List Entry → List Entry)
      → predict_slots sort_unstable fuel ix query
        ≡ from_own sort_unstable
            (partition_idx_for_key ix (compute_partition_key ix query))
            no_best
            (new_pending ix.label_defer)
  unfolding predict_slots
  predict_slots-from_own sort_unstable =
      elim (Option-cases (partition_idx_for_key ix (compute_partition_key ix query))) [
        | inl e ↦ rw (e, predict_slots)
        | inr (idx, e) ↦ rw (e, predict_slots)
      ]

  -- The slots are those of the fast prediction, and one of them has an answer where the other has.
  predict_slots-outcome :
      (sort_unstable : List Entry → List Entry) (t : Tally)
      → t.tracked.best ≡ no_best
      → ix.label_defer ≡ false
      → predict_slots sort_unstable fuel ix query
        ≡ outcome (predict_tally sort_unstable fuel ix query none t)
  predict_slots-outcome sort_unstable t start off =
      let own = partition_idx_for_key ix (compute_partition_key ix query) in
      predict_slots-from_own sort_unstable
      ∙ ap (λ b. from_own sort_unstable own no_best (new_pending b)) off
      ∙ ap (λ best. from_own sort_unstable own best (new_pending false)) (sym start)
      ∙ from_own-outcome sort_unstable own t
      ∙ ap outcome (sym (predict_tally-from_own sort_unstable t))

abbrev counted : Outcome → Option ℕ
counted r = elim r [ none ↦ none | some (best, _) ↦ some (label_sum best % 256) ]

counts :
    (r : Option Tally)
    → count_of (elim r [ none ↦ none | some t ↦ some (label_sum t.tracked.best % 256, t) ])
      ≡ counted (outcome r)
counts none = refl
counts (some t) = refl

-- Where the index puts no subtree off, the prediction that keeps statistics or partition keys, and is
-- not restricted, ends exactly when `predict_fraud_count` does, with the same count.
pub predict_fraud_count_inner-predict_fraud_count :
    (sort_unstable : List Entry → List Entry) (fuel : ℕ) (ix : SpecialistIndex)
    (query : QueryVector) (stats : Option SearchStats) (track : Bool)
    → ix.label_defer ≡ false
    → count_of (predict_fraud_count_inner sort_unstable fuel ix query stats none track)
      ≡ predict_fraud_count sort_unstable fuel ix query
unfolding predict_fraud_count_inner predict_fraud_count
predict_fraud_count_inner-predict_fraud_count sort_unstable fuel ix query stats track off =
    let start : Tally = record {
      tracked = record { best = no_best; part_keys = fill track };
      stats = stats;
    } in
    counts (predict_tally sort_unstable fuel ix query none start)
    ∙ ap counted (sym (predict_slots-outcome fuel ix query sort_unstable start refl off))
