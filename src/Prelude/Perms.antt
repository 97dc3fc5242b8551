-- ===== src/Prelude/Perms.antt =====
-- Permutations: moving a block to the front, and predicates that hold of all elements.
use mathlib.Core.Logic.{∥∥₁_elim}
use mathlib.Core.Path.{refl, sym, subst}
use mathlib.Core.HLevel.{×_prop}
use mathlib.Core.List.{List, [], ◌∷◌, ◌++◌, Perm, Permᴰ, perm_append_comm, append_assoc}
use mathlib.Core.List.Perm
use rinha_rust_tree.Prelude.Lists.{All}

pub perm_left_comm {ℓ} :
    {A : Type ℓ} (qs ps rs : List A) → Perm (qs ++ (ps ++ rs)) (ps ++ (qs ++ rs))
perm_left_comm qs ps rs =
    rw (← append_assoc qs ps rs, ← append_assoc ps qs rs)
      (Perm.append_right rs (perm_append_comm qs ps))

module _ {ℓ κ} {A : Type ℓ} (P : A → Type κ) where
  pub All-Permᴰ : {xs ys : List A} → Permᴰ xs ys → All P ys → All P xs
  All-Permᴰ Permᴰ.nil h = h
  All-Permᴰ (Permᴰ.cons e p) h = (subst P (sym e) h.0, All-Permᴰ p h.1)
  All-Permᴰ (Permᴰ.swap e g) h = (subst P (sym e) h.1.0, (subst P (sym g) h.0, h.1.1))
  All-Permᴰ (Permᴰ.trans p q) h = All-Permᴰ p (All-Permᴰ q h)

  All-prop : ((a : A) → IsProp (P a)) → (xs : List A) → IsProp (All P xs)
  All-prop p [] = λ x y. refl
  All-prop p (x ∷ xs) = ×_prop (p x) (All-prop p xs)

  pub All-perm : ((a : A) → IsProp (P a)) → {xs ys : List A} → Perm xs ys → All P ys → All P xs
  All-perm p {xs} s h = ∥∥₁_elim s (All-prop p xs) (λ d. All-Permᴰ d h)
