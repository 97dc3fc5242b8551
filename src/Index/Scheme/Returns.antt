-- ===== src/Index/Scheme/Returns.antt =====
-- Chains of results that may panic: what a chain returns, and that it does return.
use rinha_rust_tree.Prelude.{
  ℕ, zero, suc, ◌<◌, ◌≡◌, refl, Bool, true, false, if◌then◌else◌, Option, some, List, [], ◌∷◌,
  arith, length, get_elem?, set, All,
}
use rinha_rust_tree.Index.Build.{◌>>=◌}

-- The result is there and satisfies `P`.
pub record Returns {ℓ κ} {A : Type ℓ} (P : A → Type κ) (m : Option A) : Type (ℓ ⊔ κ) where
  pub value : A
  pub same : m ≡ some value
  pub holds : P value

pub return {ℓ κ} : {A : Type ℓ} {P : A → Type κ} (a : A) → P a → Returns P (some a)
return a p = record { value = a; same = refl; holds = p }

module _ {ℓ κ ℓ' κ'} {A : Type ℓ} {B : Type ℓ'} {P : A → Type κ} {Q : B → Type κ'} where
  pub bind-Returns :
      (m : Option A) (f : A → Option B)
      → Returns P m
      → ((a : A) → m ≡ some a → P a → Returns Q (f a))
      → Returns Q (m >>= f)
  bind-Returns m f r h = rw r.same (h r.value r.same r.holds)

module _ {ℓ κ} {A : Type ℓ} {P : A → Type κ} where
  pub if-Returns :
      (b : Bool) {x y : Option A}
      → (b ≡ true → Returns P x)
      → (b ≡ false → Returns P y)
      → Returns P (if b then x else y)
  if-Returns true hx hy = hx refl
  if-Returns false hx hy = hy refl

  pub get_elem?-Returns :
      (xs : List A) (i : ℕ) → i < length xs → All P xs → Returns P (get_elem? xs i)
  get_elem?-Returns [] i h a = absurd (omega arith)
  get_elem?-Returns (x ∷ xs) zero h a = return x a.0
  get_elem?-Returns (x ∷ xs) (suc i) h a = get_elem?-Returns xs i (omega arith) a.1

module _ {ℓ κ} {A : Type ℓ} (P : A → Type κ) where
  pub All-set : (xs : List A) (i : ℕ) (v : A) → All P xs → P v → All P (set xs i v)
  All-set [] i v a p = tt
  All-set (x ∷ xs) zero v a p = (p, a.1)
  All-set (x ∷ xs) (suc i) v a p = (a.0, All-set xs i v a.1 p)
