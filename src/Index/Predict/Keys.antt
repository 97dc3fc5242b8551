-- ===== src/Index/Predict/Keys.antt =====
-- The keys with a partition: the query's own and the others make up all of them.
use mathlib.Core.List.{Perm}
use mathlib.Core.List.Perm
use rinha_rust_tree.Prelude.{
  ℕ, zero, suc, ◌+◌, ◌≤◌, ◌≡◌, refl, inl, inr, true, false, List, [], ◌∷◌, ◌++◌, arith, ◌==◌,
  if◌then◌else◌, Bool-cases, get_or, All,
}
use rinha_rust_tree.Prelude.Perms.{perm_left_comm}
use rinha_rust_tree.Prelude.Int.{ℤ, pos, negsuc, ltb_ℤ}
use rinha_rust_tree.Index.Table.{active_from}

module _ {A : Type 0} (f : ℕ → List A) where
  unfoldable pub concat : List ℕ → List A
  concat [] = []
  concat (k ∷ keys) = f k ++ concat keys

unfoldable pub others : ℕ → List ℕ → List ℕ
others q [] = []
others q (k ∷ keys) = let rest = others q keys in if k == q then rest else k ∷ rest

active_from-ge : (i j : ℕ) (table : List ℤ) → i ≤ j → All (λ k. i ≤ k) (active_from j table)
unfolding active_from
active_from-ge i j [] h = tt
active_from-ge i j (idx ∷ table) h = elim (Bool-cases (ltb_ℤ idx (pos 0))) [
  | inl e ↦ rw e (active_from-ge i (j + 1) table (omega arith))
  | inr e ↦ rw e (h, active_from-ge i (j + 1) table (omega arith))
]

pub others-above : (q : ℕ) (keys : List ℕ) → All (λ k. q + 1 ≤ k) keys → others q keys ≡ keys
unfolding others
others-above q [] h = refl
others-above q (k ∷ keys) h = ground (arith, others-above q keys h.1)

-- A key with no partition is none of the active ones.
pub others-inactive :
    (q i j : ℕ) (table : List ℤ)
    → i + j ≡ q
    → ltb_ℤ (get_or table j (negsuc 0)) (pos 0) ≡ true
    → others q (active_from i table) ≡ active_from i table
unfolding others active_from
others-inactive q i j [] g h = refl
others-inactive q i zero (idx ∷ table) g h = rw h (
    others-above q (active_from (i + 1) table) (active_from-ge (q + 1) (i + 1) table (omega arith)))
others-inactive q i (suc j) (idx ∷ table) g h =
    let ne : (i == q) ≡ false = ground arith in
    elim (Bool-cases (ltb_ℤ idx (pos 0))) [
      | inl b ↦ rw b (others-inactive q (i + 1) j table (omega arith) h)
      | inr b ↦ rw (b, ne, others-inactive q (i + 1) j table (omega arith) h)
    ]

module _ {A : Type 0} (f : ℕ → List A) where
  -- What belongs to an active key, and what belongs to the others, is all there is.
  pub concat-others-perm :
      (q i j : ℕ) (table : List ℤ)
      → i + j ≡ q
      → ltb_ℤ (get_or table j (negsuc 0)) (pos 0) ≡ false
      → Perm (f q ++ concat f (others q (active_from i table))) (concat f (active_from i table))
  unfolding concat others active_from
  concat-others-perm q i j [] g h = cc
  concat-others-perm q i zero (idx ∷ table) g h =
      let e : i ≡ q = omega arith in
      let same : (i == q) ≡ true = ground arith in
      let above =
        others-above q (active_from (i + 1) table)
          (active_from-ge (q + 1) (i + 1) table (omega arith)) in
      rw (h, same, above, e) (Perm.refl _)
  concat-others-perm q i (suc j) (idx ∷ table) g h =
      let ne : (i == q) ≡ false = ground arith in
      let rest = concat-others-perm q (i + 1) j table (omega arith) h in
      elim (Bool-cases (ltb_ℤ idx (pos 0))) [
        | inl b ↦ rw b rest
        | inr b ↦
            rw (b, ne) (Perm.trans (perm_left_comm (f q) (f i) _) (Perm.append_left (f i) rest))
      ]

-- The active keys are those with a partition.
active_from-IsActive :
    (whole : List ℤ) (i : ℕ) (table : List ℤ)
    → ((j : ℕ) → get_or whole (i + j) (negsuc 0) ≡ get_or table j (negsuc 0))
    → All (λ k. ltb_ℤ (get_or whole k (negsuc 0)) (pos 0) ≡ false) (active_from i table)
unfolding active_from
active_from-IsActive whole i [] h = tt
active_from-IsActive whole i (idx ∷ table) h =
    let e : i + 0 ≡ i = omega arith in
    let here : get_or whole i (negsuc 0) ≡ idx = rw e at (h 0) in
    let rest =
      active_from-IsActive whole (i + 1) table
        (λ j. let g : i + 1 + j ≡ i + suc j = omega arith in rw g (h (suc j))) in
    elim (Bool-cases (ltb_ℤ idx (pos 0))) [ inl b ↦ rw b rest | inr b ↦ rw b (rw here b, rest) ]

pub active-IsActive :
    (table : List ℤ)
    → All (λ k. ltb_ℤ (get_or table k (negsuc 0)) (pos 0) ≡ false) (active_from 0 table)
active-IsActive table =
    active_from-IsActive table 0 table (λ j. let e : 0 + j ≡ j = omega arith in rw e)
