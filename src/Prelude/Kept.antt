-- ===== src/Prelude/Kept.antt =====
-- Lists that grow and are written: what was there, and stays.
use mathlib.Core.Logic.{∥∥₁_elim}
use mathlib.Core.Path.{◌≡◌, refl, ap, ◌∙◌}
use mathlib.Core.List.{List, [], ◌∷◌, ◌++◌, Perm, Permᴰ}
use mathlib.Core.Option.{some}
use Prim.Native.Nat.{ℕ, zero, suc, ◌+◌, ◌≤◌, ◌<◌}
use native.Mathlib.Omega.{arith}
use rinha_rust_tree.Prelude.Lists.{length, get_elem?, get_or, set}

ℕ_set : IsSet ℕ
ℕ_set = hlevel

module _ {A : Type 0} where
  -- From place `low` on, what `xs` holds `ys` holds too.
  abbrev pub Keeps : ℕ → List A → List A → Type 0
  Keeps low xs ys = (i : ℕ) (a : A) → low ≤ i → get_elem? xs i ≡ some a → get_elem? ys i ≡ some a

  pub Keeps-append : (xs ys : List A) → Keeps 0 xs (xs ++ ys)
  Keeps-append [] ys i a h e = cc
  Keeps-append (x ∷ xs) ys zero a h e = e
  Keeps-append (x ∷ xs) ys (suc i) a h e = Keeps-append xs ys i a (omega arith) e

  pub get_elem?-append :
      (xs ys : List A) (i : ℕ) → get_elem? (xs ++ ys) (length xs + i) ≡ get_elem? ys i
  get_elem?-append [] ys i = let e : 0 + i ≡ i = omega arith in rw e refl
  get_elem?-append (x ∷ xs) ys i =
      let e : suc (length xs) + i ≡ suc (length xs + i) = omega arith in
      rw e (get_elem?-append xs ys i)

  pub get_elem?-set :
      (xs : List A) (i : ℕ) (v : A) → i < length xs → get_elem? (set xs i v) i ≡ some v
  get_elem?-set [] i v h = absurd (omega arith)
  get_elem?-set (x ∷ xs) zero v h = refl
  get_elem?-set (x ∷ xs) (suc i) v h = get_elem?-set xs i v (omega arith)

  pub get_elem?-lt : (xs : List A) (i : ℕ) (a : A) → get_elem? xs i ≡ some a → i < length xs
  get_elem?-lt [] i a h = cc
  get_elem?-lt (x ∷ xs) zero a h = omega arith
  get_elem?-lt (x ∷ xs) (suc i) a h = omega (arith, get_elem?-lt xs i a h)

  pub get_elem?-get_or :
      (xs : List A) (i : ℕ) (a d : A) → get_elem? xs i ≡ some a → get_or xs i d ≡ a
  get_elem?-get_or [] i a d h = cc
  get_elem?-get_or (x ∷ xs) zero a d h = cc
  get_elem?-get_or (x ∷ xs) (suc i) a d h = get_elem?-get_or xs i a d h

  -- A write below `low` keeps what is there from `low` on, and one above keeps what was below.
  pub Keeps-set : (xs : List A) (j : ℕ) (v : A) → Keeps (suc j) xs (set xs j v)
  Keeps-set [] j v i a h e = e
  Keeps-set (x ∷ xs) zero v zero a h e = absurd (omega arith)
  Keeps-set (x ∷ xs) zero v (suc i) a h e = e
  Keeps-set (x ∷ xs) (suc j) v zero a h e = absurd (omega arith)
  Keeps-set (x ∷ xs) (suc j) v (suc i) a h e = Keeps-set xs j v i a (omega arith) e

  pub get_elem?-set_above :
      (xs : List A) (j : ℕ) (v : A) (i : ℕ) (a : A)
      → i < j
      → get_elem? xs i ≡ some a
      → get_elem? (set xs j v) i ≡ some a
  get_elem?-set_above [] j v i a h e = e
  get_elem?-set_above (x ∷ xs) zero v i a h e = absurd (omega arith)
  get_elem?-set_above (x ∷ xs) (suc j) v zero a h e = e
  get_elem?-set_above (x ∷ xs) (suc j) v (suc i) a h e =
      get_elem?-set_above xs j v i a (omega arith) e

  pub Keeps-trans :
      (low : ℕ) (xs ys zs : List A) → Keeps low xs ys → Keeps low ys zs → Keeps low xs zs
  Keeps-trans low xs ys zs p q i a h e = q i a h (p i a h e)

  length-Permᴰ : {xs ys : List A} → Permᴰ xs ys → length xs ≡ length ys
  length-Permᴰ Permᴰ.nil = refl
  length-Permᴰ (Permᴰ.cons e p) = ap suc (length-Permᴰ p)
  length-Permᴰ (Permᴰ.swap e g) = refl
  length-Permᴰ (Permᴰ.trans p q) = length-Permᴰ p ∙ length-Permᴰ q

  pub length-perm : {xs ys : List A} → Perm xs ys → length xs ≡ length ys
  length-perm s = ∥∥₁_elim s (ℕ_set _ _) length-Permᴰ
