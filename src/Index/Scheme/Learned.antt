-- ===== src/Index/Scheme/Learned.antt =====
-- src/index/partition_scheme.rs: the training ends, and what it puts into the tree.
use rinha_rust_tree.Prelude.{
  ℕ, zero, suc, ◌+◌, ◌-◌, ◌<◌, ◌≤◌, ◌≡◌, ap, ◌⊎◌, inl, inr, min, Bool, false, not, List, [], ◌∷◌,
  Option, none, some, arith, ltb, if◌then◌else◌, Bool-cases, length, get_elem?, All,
}
use rinha_rust_tree.Index.Table.{TreePredicate}
use rinha_rust_tree.Index.Build.{Reference}
use rinha_rust_tree.Index.Scheme.{Candidate, predicate_matches}
use rinha_rust_tree.Index.Scheme.Returns.{
  Returns, return, bind-Returns, if-Returns, get_elem?-Returns,
}
use rinha_rust_tree.Index.Scheme.Train.{
  Scores, Labels, count_label, count_labels, Sides, same_side, Sample, query_at, split_positions,
  label_separation, count_sides, Best, better, weigh, consider, best_predicate, no_predicate,
}

-- How many of the positions satisfy the test.
unfoldable pub how_many : (ℕ → Bool) → List ℕ → ℕ
how_many test [] = 0
how_many test (i ∷ positions) =
    let rest = how_many test positions in if test i then rest + 1 else rest

unfoldable pub is_above : Option Reference → Candidate → Bool
unfolding predicate_matches
is_above (some r) c = predicate_matches r.vector c
is_above none c = false

-- The sampled reference at `i` is above the threshold.
unfoldable pub is_right : Sample → Candidate → ℕ → Bool
unfolding is_above
is_right sample c i = is_above (query_at sample i) c

abbrev pub is_left : Sample → Candidate → ℕ → Bool
is_left sample c i = not (is_right sample c i)

-- All positions lead to references, whose neighbours are references, and the labels are 0 and 1.
pub record IsSample (sample : Sample) : Type 0 where
  pub queries : (i : ℕ) → i < length sample.query_idx → Returns (λ r. Unit {0}) (query_at sample i)
  pub near :
      (i : ℕ)
      → i < length sample.query_idx
      → Returns (All (λ ni. ni < length sample.references)) (get_elem? sample.neighbors i)
  pub labels : All (λ r. r.label < 2) sample.references

abbrev pub InSample : Sample → List ℕ → Type 0
InSample sample = All (λ i. i < length sample.query_idx)

count_label-Returns :
    (label : ℕ) (side : Bool) (st : Labels)
    → label < 2
    → Returns (λ st'. Unit {0}) (count_label label side st)
unfolding count_label
count_label-Returns zero side st h = return _ tt
count_label-Returns (suc zero) side st h = return _ tt
count_label-Returns (suc (suc label)) side st h = absurd (omega arith)

count_labels-Returns :
    (step skip : ℕ) (references : List Reference) (c : Candidate) (st : Labels)
    → All (λ r. r.label < 2) references
    → Returns (λ st'. Unit {0}) (count_labels step skip references c st)
unfolding count_labels
count_labels-Returns step skip [] c st h = return st tt
count_labels-Returns step zero (r ∷ references) c st h =
    bind-Returns _ _ (count_label-Returns r.label (predicate_matches r.vector c) st h.0)
      (λ st' e u. count_labels-Returns step (step - 1) references c st' h.1)
count_labels-Returns step (suc skip) (r ∷ references) c st h =
    count_labels-Returns step skip references c st h.1

All-Unit : {A : Type 0} (xs : List A) → All (λ x. Unit {0}) xs
All-Unit [] = tt
All-Unit (x ∷ xs) = (tt, All-Unit xs)

same_side-Returns :
    (references : List Reference) (near : List ℕ) (c : Candidate) (side : Bool)
    → All (λ ni. ni < length references) near
    → Returns (λ same. Unit {0}) (same_side references near c side)
unfolding same_side
same_side-Returns references [] c side h = return 0 tt
same_side-Returns references (ni ∷ near) c side h =
    bind-Returns _ _ (get_elem?-Returns references ni h.0 (All-Unit references)) (λ r e u.
      bind-Returns _ _ (same_side-Returns references near c side h.1) (λ same e' u'. return _ tt))

-- `part` has no more of anything than `positions`.
pub record Within (sample : Sample) (part positions : List ℕ) : Type 0 where
  pub inside : InSample sample part
  pub fewer : (test : ℕ → Bool) → how_many test part ≤ how_many test positions

module _ (sample : Sample) {part positions : List ℕ} (i : ℕ) where
  Within-skip : Within sample part positions → Within sample part (i ∷ positions)
  unfolding how_many
  Within-skip w = record { inside = w.inside; fewer = λ test. ground (arith, w.fewer test) }

  Within-cons :
      i < length sample.query_idx
      → Within sample part positions
      → Within sample (i ∷ part) (i ∷ positions)
  unfolding how_many
  Within-cons h w = record { inside = (h, w.inside); fewer = λ test. ground (arith, w.fewer test) }

module _ (fl : Scores) (sample : Sample) (ok : IsSample sample) where
  label_separation-Returns :
      (c : Candidate) → Returns (λ s. Unit {0}) (label_separation fl sample.references c)
  unfolding label_separation
  label_separation-Returns c =
      bind-Returns _ _ (count_labels-Returns _ 0 sample.references c _ ok.labels)
        (λ st e u. return _ tt)

  -- The sides that are counted are those of the positions.
  count_sides-Returns :
      (c : Candidate) (positions : List ℕ) (st : Sides fl.F64)
      → InSample sample positions
      → Returns
          (λ st'.
            (st'.left ≡ st.left + how_many (is_left sample c) positions)
            × (st'.right ≡ st.right + how_many (is_right sample c) positions))
          (count_sides fl sample c positions st)
  unfolding count_sides how_many
  count_sides-Returns c [] st h = return st (omega arith, omega arith)
  count_sides-Returns c (i ∷ positions) st h = bind-Returns _ _ (ok.queries i h.0) (λ r e u.
      bind-Returns _ _ (ok.near i h.0) (λ near e' inside.
        let q_side = predicate_matches r.vector c in
        let right : is_right sample c i ≡ q_side =
          unfold is_right in unfold is_above in ap (λ m. is_above m c) e in
        bind-Returns _ _ (same_side-Returns sample.references near c q_side inside) (λ same e'' u'.
          let t = count_sides-Returns c positions _ h.1 in
          let (left_sum, right_sum) = t.holds in
          record {
            value = t.value;
            same = t.same;
            holds = (ground (arith, right, left_sum), ground (arith, right, right_sum));
          })))

  pub split_positions-Returns :
      (c : Candidate) (positions : List ℕ)
      → InSample sample positions
      → Returns
          (λ sides. Within sample sides.0 positions × Within sample sides.1 positions)
          (split_positions sample c positions)
  unfolding split_positions how_many
  split_positions-Returns c [] h =
      let nothing : Within sample [] [] = record { inside = tt; fewer = λ test. omega arith } in
      return ([], []) (nothing, nothing)
  split_positions-Returns c (i ∷ positions) h = bind-Returns _ _ (ok.queries i h.0) (λ r e u.
      bind-Returns _ _ (split_positions-Returns c positions h.1) (λ sides e' within.
        elim (Bool-cases (predicate_matches r.vector c)) [
          | inl b ↦
              rw b (return _ (Within-skip sample i within.0, Within-cons sample i h.0 within.1))
          | inr b ↦
              rw b (return _ (Within-cons sample i h.0 within.0, Within-skip sample i within.1))
        ]))

module _ (fl : Scores) (sample : Sample) (ok : IsSample sample) (Proper : Candidate → Type 0) where
  -- A proper candidate with at least four of the positions on either side.
  pub record Separates (positions : List ℕ) (c : Candidate) : Type 0 where
    pub proper : Proper c
    pub left : 4 ≤ how_many (is_left sample c) positions
    pub right : 4 ≤ how_many (is_right sample c) positions

  unfoldable pub IsChosen : List ℕ → Best fl → Type 0
  IsChosen positions none = Unit
  IsChosen positions (some (score, c)) = Separates positions c

  consider-Returns :
      (positions : List ℕ) (c : Candidate) (best : Best fl)
      → InSample sample positions
      → Proper c
      → IsChosen positions best
      → Returns (IsChosen positions) (consider fl sample positions c best)
  unfolding consider IsChosen
  consider-Returns positions c best h proper chosen =
      bind-Returns _ _ (count_sides-Returns fl sample ok c positions _ h) (λ st e sums.
        if-Returns (ltb (min st.left st.right) 4) (λ few. return best chosen)
          (λ enough. bind-Returns _ _ (label_separation-Returns fl sample ok c) (λ label_sep e' u.
            let split : Separates positions c = record {
              proper = proper;
              left = ground (arith, sums, enough);
              right = ground (arith, sums, enough);
            } in
            let score = weigh fl (length positions) st label_sep in
            elim (Bool-cases (better fl score best)) [
              | inl b ↦ rw b (return _ split)
              | inr b ↦ rw b (return _ chosen)
            ])))

  pub best_predicate-Returns :
      (positions : List ℕ) (candidates : List Candidate) (best : Best fl)
      → InSample sample positions
      → All Proper candidates
      → IsChosen positions best
      → Returns (IsChosen positions) (best_predicate fl sample positions candidates best)
  unfolding best_predicate
  best_predicate-Returns positions [] best h proper chosen = return best chosen
  best_predicate-Returns positions (c ∷ candidates) best h proper chosen =
      bind-Returns _ _ (consider-Returns positions c best h proper.0 chosen)
        (λ best' e chosen'. best_predicate-Returns positions candidates best' h proper.1 chosen')

  -- What the training writes into the tree, where `whole` are the positions it began with.
  unfoldable pub IsTrained : List ℕ → TreePredicate → Type 0
  IsTrained whole p =
      (p ≡ no_predicate) ⊎ Separates whole (record { dim = p.dim; threshold = p.threshold })
