-- ===== src/Index/Tracked/Keys.antt =====
-- The keys with a partition that a restricted search of src/index/mod.rs may use.
use rinha_rust_tree.Prelude.{
  ℕ, ◌+◌, ◌≡◌, refl, inl, inr, List, [], ◌∷◌, arith, if◌then◌else◌, Bool-cases, All,
}
use rinha_rust_tree.Prelude.Int.{ℤ}
use rinha_rust_tree.Index.Table.{active_from}
use rinha_rust_tree.Index.PartitionSet.{PartitionSet, contains}
use rinha_rust_tree.Index.Predict.Keys.{concat, others}
use rinha_rust_tree.Index.Tracked.Predict.{allowed_from}

module _ (allowed : PartitionSet) where
  unfoldable pub keep : List ℕ → List ℕ
  keep [] = []
  keep (key ∷ keys) = let rest = keep keys in if contains allowed key then key ∷ rest else rest

  pub allowed_from-keep :
      (key : ℕ) (table : List ℤ) → allowed_from allowed key table ≡ keep (active_from key table)
  unfolding allowed_from keep active_from
  allowed_from-keep key [] = refl
  allowed_from-keep key (idx ∷ table) = ground (arith, allowed_from-keep (key + 1) table)

  pub others-keep : (q : ℕ) (keys : List ℕ) → others q (keep keys) ≡ keep (others q keys)
  unfolding others keep
  others-keep q [] = refl
  others-keep q (key ∷ keys) = ground (arith, others-keep q keys)

  pub All-keep {ℓ} : (P : ℕ → Type ℓ) (keys : List ℕ) → All P keys → All P (keep keys)
  unfolding keep
  All-keep P [] h = tt
  All-keep P (key ∷ keys) h = elim (Bool-cases (contains allowed key)) [
    | inl e ↦ rw e (h.0, All-keep P keys h.1)
    | inr e ↦ rw e (All-keep P keys h.1)
  ]

  module _ {A : Type 0} (f : ℕ → List A) where
    abbrev pub only : ℕ → List A
    only key = if contains allowed key then f key else []

    pub concat-keep : (keys : List ℕ) → concat f (keep keys) ≡ concat only keys
    unfolding concat keep
    concat-keep [] = refl
    concat-keep (key ∷ keys) = elim (Bool-cases (contains allowed key)) [
      | inl e ↦ rw (e, concat-keep keys)
      | inr e ↦ rw (e, concat-keep keys)
    ]
