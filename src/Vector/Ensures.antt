-- ===== src/Vector/Ensures.antt =====
-- Outcomes that are no lack of fuel, and what holds of their values.
use mathlib.Core.Path.{subst}
use rinha_rust_tree.Prelude.{◌≡◌, ◌≢◌, refl, Bool, true, false, if◌then◌else◌}
use rinha_rust_tree.Vector.Json.{Result, ok, invalid, out_of_fuel, ParseError, and_then}

pub data Ensures {ℓ κ} {A : Type ℓ} (P : A → Type κ) : Result A → Type (ℓ ⊔ κ) where
  holds : {a : A} → P a → Ensures P (ok a)
  refused : {e : ParseError} → Ensures P (invalid e)

module _ {ℓ κ} {A : Type ℓ} {P : A → Type κ} where
  pub Ensures-ok : {r : Result A} {a : A} → Ensures P r → r ≡ ok a → P a
  Ensures-ok (Ensures.holds h) e = subst P (cc) h
  Ensures-ok Ensures.refused e = cc

  pub Ensures-out_of_fuel : {r : Result A} → Ensures P r → r ≢ out_of_fuel
  Ensures-out_of_fuel (Ensures.holds h) = cc
  Ensures-out_of_fuel Ensures.refused = cc

  pub Ensures-if :
      (b : Bool) {x y : Result A}
      → (b ≡ true → Ensures P x)
      → (b ≡ false → Ensures P y)
      → Ensures P (if b then x else y)
  Ensures-if true hx hy = hx refl
  Ensures-if false hx hy = hy refl

  pub Ensures-and_then {ℓ' κ'} :
      {B : Type ℓ'} {Q : B → Type κ'} {r : Result A} {f : A → Result B}
      → Ensures P r
      → ((a : A) → P a → Ensures Q (f a))
      → Ensures Q (and_then r f)
  Ensures-and_then (Ensures.holds {a} h) k = k a h
  Ensures-and_then Ensures.refused k = Ensures.refused

  pub Ensures-weaken {κ'} :
      {Q : A → Type κ'} {r : Result A} → Ensures P r → ((a : A) → P a → Q a) → Ensures Q r
  Ensures-weaken (Ensures.holds {a} h) k = Ensures.holds (k a h)
  Ensures-weaken Ensures.refused k = Ensures.refused
