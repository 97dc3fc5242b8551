-- ===== src/Vector/Floats.antt =====
-- The arithmetic of f64 that src/vector uses, as an interface, and what src/vector/helpers.rs
-- computes with it. The floating-point unit and the standard library are no code of the repository.
use rinha_rust_tree.Prelude.{
  ℕ, zero, suc, ◌+◌, ◌-◌, ◌*◌, Bool, false, ◌&&◌, ◌||◌, List, [], ◌∷◌, Option, none, some, ltb, leb,
  ◌==◌, if◌then◌else◌, set,
}
use rinha_rust_tree.Prelude.Int.{ℤ, pos, sub_ℕ}
use rinha_rust_tree.Http.Bytes.{Bytes}
use rinha_rust_tree.Http.Parser.{◌>>=◌}
use rinha_rust_tree.Index.Table.{QueryVector}

pub record Floats : Type 1 where
  pub F64 : Type 0
  -- `as f64`
  pub of_int : ℤ → F64
  -- the literal of so many digits behind the point: `decimal 15 2` is 0.15
  pub decimal : ℕ → ℕ → F64
  pub mul : F64 → F64 → F64
  pub div : F64 → F64 → F64
  pub neg : F64 → F64
  pub le : F64 → F64 → Bool
  pub lt : F64 → F64 → Bool
  -- `.round() as i16`
  pub round_i16 : F64 → ℤ
  -- `str::from_utf8` and `parse::<f64>`
  pub from_text : Bytes → Option F64

module _ (fl : Floats) where
  -- `INV_10_000` and its like: 1.0 / n
  abbrev pub inv : ℕ → fl.F64
  inv n = fl.div (fl.of_int (pos 1)) (fl.of_int (pos n))

module _ (fl : Floats) (scale : ℕ) where
  abbrev pub minus_scale : ℤ
  minus_scale = sub_ℕ 0 scale

  unfoldable pub quantize : fl.F64 → ℤ
  quantize value =
      if fl.le value (fl.neg (fl.of_int (pos 1)))
      then minus_scale
      else if fl.le value (fl.of_int (pos 0))
      then pos 0
      else if fl.le (fl.of_int (pos 1)) value
      then pos scale
      else fl.round_i16 (fl.mul value (fl.of_int (pos scale)))

  -- `x as f64 * INV`, and `x * INV`, quantized
  abbrev pub scaled : ℤ → ℕ → ℤ
  scaled x n = quantize (fl.mul (fl.of_int x) (inv fl n))

  abbrev pub scaled_f64 : fl.F64 → ℕ → ℤ
  scaled_f64 x n = quantize (fl.mul x (inv fl n))

  abbrev has_hash : ℕ → List ℕ → Bool
  has_hash h [] = false
  has_hash h (k ∷ hashes) = k == h || has_hash h hashes

  unfoldable pub finish_vector : QueryVector → fl.F64 → fl.F64 → ℕ → List ℕ → QueryVector
  unfolding quantize
  finish_vector out amount customer_avg_amount merchant_hash known_hashes =
      let ratio =
        if fl.lt (fl.of_int (pos 0)) customer_avg_amount
        then quantize (fl.div (fl.div amount customer_avg_amount) (fl.of_int (pos 10)))
        else pos scale in
      set (set out 2 ratio) 11 (if has_hash merchant_hash known_hashes then pos 0 else pos scale)

-- the variables of the loop of `fast_parse_f64`; 18 digits do not overflow a u64
pub record Digits : Type 0 where
  pub val : ℕ
  pub decimal_point : Option ℕ
  pub digits : ℕ

abbrev pub is_digit : ℕ → Bool
is_digit b = leb 48 b && leb b 57

module _ (fl : Floats) where
  unfoldable pub mcc_risk : ℕ → fl.F64
  mcc_risk mcc =
      if mcc == 5411
      then fl.decimal 15 2
      else if mcc == 5812
      then fl.decimal 30 2
      else if mcc == 5912
      then fl.decimal 20 2
      else if mcc == 5944
      then fl.decimal 45 2
      else if mcc == 7801
      then fl.decimal 80 2
      else if mcc == 7802
      then fl.decimal 75 2
      else if mcc == 7995
      then fl.decimal 85 2
      else if mcc == 4511
      then fl.decimal 35 2
      else if mcc == 5311
      then fl.decimal 25 2
      else fl.decimal 50 2

  -- one round of the loop
  unfoldable pub next_digit : ℕ → Digits → Option Digits
  next_digit b d =
      if b == 46
      then elim d.decimal_point [
        | none ↦ some (record d { decimal_point = some d.digits })
        | some _ ↦ none
      ]
      else if is_digit b
      then (if leb 18 d.digits
          then none
          else some (record d { val = d.val * 10 + (b - 48); digits = d.digits + 1 }))
      else none

  unfoldable pub fast_digits : Bytes → Digits → Option Digits
  unfolding next_digit
  fast_digits [] d = some d
  fast_digits (b ∷ s) d = elim (next_digit b d) [ none ↦ none | some d' ↦ fast_digits s d' ]

  abbrev fraction_digits : Digits → ℕ
  fraction_digits d = elim d.decimal_point [ none ↦ 0 | some place ↦ d.digits - place ]

  -- The literals of `factor`; the match has none past 17 digits.
  unfoldable pub factor : ℕ → Option fl.F64
  factor zero = some (fl.of_int (pos 1))
  factor (suc n) = if ltb 17 (suc n) then none else some (fl.decimal 1 (suc n))

  unfoldable pub signed : Bool → Digits → Option fl.F64
  unfolding factor
  signed minus d = if d.digits == 0 then none else (do
    f ← factor (fraction_digits d)
    let result = fl.mul (fl.of_int (pos d.val)) f
    some (if minus then fl.neg result else result))

  abbrev no_digits : Digits
  no_digits = record { val = 0; decimal_point = none; digits = 0 }

  unfoldable pub fast_parse_f64 : Bytes → Option fl.F64
  unfolding fast_digits signed
  fast_parse_f64 [] = none
  fast_parse_f64 (b ∷ s) =
      let unsigned = if b == 45 || b == 43 then s else b ∷ s in
      fast_digits unsigned no_digits >>= λ d. signed (b == 45) d
