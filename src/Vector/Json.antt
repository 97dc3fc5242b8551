-- ===== src/Vector/Json.antt =====
-- The outcome of the transaction parsers (`ParseError` of src/vector/mod.rs), and their cursor.
use rinha_rust_tree.Prelude.{ℕ, Option, none, some}

pub data ParseError : Type 0 where
  missing_field : ParseError
  invalid_value : ParseError
  invalid_format : ParseError

-- `out_of_fuel` is no answer of the code.
pub data Result {ℓ} (A : Type ℓ) : Type ℓ where
  ok : A → Result A
  invalid : ParseError → Result A
  out_of_fuel : Result A

abbrev pub and_then {ℓ κ} : {A : Type ℓ} {B : Type κ} → Result A → (A → Result B) → Result B
and_then (ok a) f = f a
and_then (invalid e) f = invalid e
and_then out_of_fuel f = out_of_fuel

-- reads at the cursor `i`, and moves it
abbrev pub Reader {ℓ} : Type ℓ → Type ℓ
Reader A = ℕ → Result (A × ℕ)

infixl 1 ◌>>=◌
abbrev pub ◌>>=◌ {ℓ κ} : {A : Type ℓ} {B : Type κ} → Reader A → (A → Reader B) → Reader B
p >>= f = λ i. and_then (p i) λ (a, next). f a next

abbrev pub pure {ℓ} : {A : Type ℓ} → A → Reader A
pure a i = ok (a, i)

abbrev pub fail {ℓ} : {A : Type ℓ} → ParseError → Reader A
fail e i = invalid e

-- `ok_or`, and a fallible call that leaves the cursor where it is
abbrev pub ok_or {ℓ} : {A : Type ℓ} → ParseError → Option A → Reader A
ok_or e none i = invalid e
ok_or e (some a) i = ok (a, i)

abbrev pub lift {ℓ} : {A : Type ℓ} → Result A → Reader A
lift r i = and_then r λ a. ok (a, i)
