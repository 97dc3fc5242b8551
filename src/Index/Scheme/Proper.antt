-- ===== src/Index/Scheme/Proper.antt =====
-- src/index/partition_scheme.rs: the candidates are predicates of the vectors' dimensions.
use mathlib.Core.HLevel.{×_prop}
use mathlib.Core.List.{Perm}
use native.Mathlib.Bridge.{le_prop}
use rinha_rust_tree.Prelude.{
  ℕ, zero, suc, ◌+◌, ◌-◌, ◌*◌, ◌/◌, ◌<◌, ◌≤◌, inl, inr, Bool, List, [], ◌∷◌, map, arith, leb,
  Bool-cases, length, get_or, All, All-append,
}
use rinha_rust_tree.Prelude.Int.{ℤ, pos, negsuc, ◌+ℤ◌, eqb_ℤ}
use rinha_rust_tree.Prelude.Perms.{All-perm}
use rinha_rust_tree.Index.Words.{wrap16}
use rinha_rust_tree.Index.Table.{dim}
use rinha_rust_tree.Index.Reader.RoundTrip.{Fits16}
use rinha_rust_tree.Index.Build.{Reference, dims}
use rinha_rust_tree.Index.Scheme.{
  Candidate, half, midpoint, midpoints, quantiles, thresholds, dedup, dedup_behind, candidate,
  candidates_from, same_candidate, candidate_predicates,
}
use rinha_rust_tree.Index.Scheme.Known.{dim-Fits16}
use rinha_rust_tree.Index.Scheme.Found.{AreI16}

-- The standard library's sort, of which nothing but this is used here.
abbrev pub IsPermuting {ℓ} : {A : Type ℓ} → (List A → List A) → Type ℓ
IsPermuting {A = A} sort = (xs : List A) → Perm (sort xs) xs

abbrev pub IsProper : Candidate → Type 0
IsProper c = (c.dim < 14) × Fits16 c.threshold

Fits16-prop : (v : ℤ) → IsProp (Fits16 v)
Fits16-prop v = ×_prop le_prop le_prop

wrap16-Fits16 : (z : ℤ) → Fits16 (wrap16 z)
wrap16-Fits16 (pos n) = ground arith
wrap16-Fits16 (negsuc n) = ground arith

module _ {A : Type 0} (P : A → Type 0) (same : A → A → Bool) where
  dedup_behind-All : (x : A) (xs : List A) → All P xs → All P (dedup_behind same x xs)
  unfolding dedup_behind
  dedup_behind-All x [] h = tt
  dedup_behind-All x (y ∷ ys) h = elim (Bool-cases (same x y)) [
    | inl b ↦ rw b (dedup_behind-All y ys h.1)
    | inr b ↦ rw b (h.0, dedup_behind-All y ys h.1)
  ]

  dedup-All : (xs : List A) → All P xs → All P (dedup same xs)
  unfolding dedup
  dedup-All [] h = tt
  dedup-All (x ∷ xs) h = (h.0, dedup_behind-All x xs h.1)

  get_or-All : (xs : List A) (i : ℕ) (d : A) → All P xs → P d → P (get_or xs i d)
  get_or-All [] i d h p = p
  get_or-All (x ∷ xs) zero d h p = h.0
  get_or-All (x ∷ xs) (suc i) d h p = get_or-All xs i d h.1 p

midpoints-All : (a : ℤ) (values : List ℤ) → All Fits16 (midpoints a values)
unfolding midpoints midpoint
midpoints-All a [] = tt
midpoints-All a (b ∷ values) = (wrap16-Fits16 (half (a +ℤ b)), midpoints-All b values)

quantiles-All : (n q : ℕ) (values : List ℤ) → All Fits16 values → All Fits16 (quantiles n q values)
unfolding quantiles
quantiles-All zero q values h = tt
quantiles-All (suc n) q values h = (
  get_or-All Fits16 eqb_ℤ values ((length values - 1) * q / 16) (pos 0) h
      (omega arith, omega arith),
  quantiles-All n (q + 1) values h,
)

thresholds-All : (values : List ℤ) → All Fits16 values → All Fits16 (thresholds values)
unfolding thresholds
thresholds-All [] h = tt
thresholds-All (a ∷ values) h = elim (Bool-cases (leb (length values) 0)) [
  | inl e ↦ rw e tt
  | inr e ↦ elim (Bool-cases (leb (suc (length values)) 64)) [
    | inl f ↦ rw (e, f) (midpoints-All a values)
    | inr f ↦ rw (e, f) (quantiles-All 15 1 (a ∷ values) h)
  ]
]

values-All :
    (references : List Reference) (d : ℕ)
    → AreI16 references
    → All Fits16 (map (λ r. dim r.vector d) references)
values-All [] d h = tt
values-All (r ∷ references) d h = (dim-Fits16 r.vector d h.0, values-All references d h.1)

candidate-All :
    (d : ℕ) (values : List ℤ) → d < 14 → All Fits16 values → All IsProper (map (candidate d) values)
candidate-All d [] h a = tt
candidate-All d (v ∷ values) h a = ((h, a.0), candidate-All d values h a.1)

module _ (sort_values : List ℤ → List ℤ) (values_permuted : IsPermuting sort_values)
    (references : List Reference) (i16 : AreI16 references) where
  candidates_from-All :
      (n d : ℕ) → n + d ≤ 14 → All IsProper (candidates_from sort_values references n d)
  unfolding candidates_from
  candidates_from-All zero d h = tt
  candidates_from-All (suc n) d h =
      let values = map (λ r. dim r.vector d) references in
      let sorted =
        All-perm Fits16 Fits16-prop (values_permuted values) (values-All references d i16) in
      All-append IsProper _ _
        (candidate-All d _ (omega arith)
          (thresholds-All _ (dedup-All Fits16 eqb_ℤ (sort_values values) sorted)))
        (candidates_from-All n (d + 1) (omega arith))

  pub candidate_predicates-All :
      (sort_candidates : List Candidate → List Candidate)
      → IsPermuting sort_candidates
      → All IsProper (candidate_predicates sort_values sort_candidates references)
  unfolding candidate_predicates
  candidate_predicates-All sort_candidates permuted =
      let candidates = candidates_from sort_values references dims 0 in
      dedup-All IsProper same_candidate (sort_candidates candidates) (
        All-perm IsProper (λ c. ×_prop le_prop (Fits16-prop c.threshold)) (permuted candidates)
          (candidates_from-All dims 0 (omega arith)))
