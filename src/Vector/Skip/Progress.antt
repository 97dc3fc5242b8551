-- ===== src/Vector/Skip/Progress.antt =====
-- Passing over a value moves on, stays within the text, and needs no more fuel than its length.
use rinha_rust_tree.Prelude.{
  ℕ, zero, suc, ◌+◌, ◌≤◌, ◌<◌, ◌≡◌, Bool, true, false, not, ◌&&◌, ◌||◌, inl, inr, [], ◌∷◌, some,
  arith, ltb, ◌==◌, Bool-cases, Option-cases, length, get_or, drop, length-drop,
}
use rinha_rust_tree.Http.Bytes.{Bytes, codes, starts_with}
use rinha_rust_tree.Vector.Ensures.{Ensures, Ensures-if, Ensures-and_then, Ensures-weaken}
use rinha_rust_tree.Vector.Floats.{is_digit}
use rinha_rust_tree.Vector.Fields.{
  is_sign, sign_len, digits_len, exponent_len, number_len, string_end,
}
use rinha_rust_tree.Vector.Skip.{
  ws_len, skip_ws, skip_string, skip_number, skip_literal, nested_step, skip_nested, skip_value_at,
  skip_value,
}

ws_len-le : (s : Bytes) → ws_len s ≤ length s
unfolding ws_len
ws_len-le [] = omega arith
ws_len-le (b ∷ s) = ground (arith, ws_len-le s)

digits_len-le : (s : Bytes) → digits_len s ≤ length s
unfolding digits_len
digits_len-le [] = omega arith
digits_len-le (b ∷ s) = ground (arith, digits_len-le s)

exponent_len-le : (s : Bytes) → exponent_len s ≤ length s
unfolding exponent_len
exponent_len-le [] = omega arith
exponent_len-le (b ∷ s) = ground (arith, digits_len-le s, digits_len-le (b ∷ s))

sign_len-le : (s : Bytes) → sign_len s ≤ length s
sign_len-le [] = omega arith
sign_len-le (b ∷ s) = ground arith

number_len-le : (s : Bytes) (dot digit : Bool) → (number_len s dot digit).0 ≤ length s
unfolding number_len
number_len-le [] dot digit = omega arith
number_len-le (b ∷ s) dot digit =
    ground (
      arith,
      number_len-le s (dot || (b == 46 && not dot)) (digit || is_digit b),
      exponent_len-le s,
    )

-- A digit that was not there before is passed.
number_len-pos :
    (s : Bytes) (dot : Bool) → (number_len s dot false).1 ≡ true → 0 < (number_len s dot false).0
unfolding number_len
number_len-pos [] dot h = cc
number_len-pos (b ∷ s) dot h = ground arith

string_end-bounds :
    (s : Bytes) (i : ℕ) (escaped : Bool) (j : ℕ)
    → string_end s i escaped ≡ some j
    → (i ≤ j) × (j < i + length s)
unfolding string_end
string_end-bounds [] i escaped j e = cc
string_end-bounds (b ∷ s) i escaped j e =
    ground (arith, string_end-bounds s (i + 1) (not escaped && b == 92) j)

pub starts_with-le : (s lit : Bytes) → starts_with s lit ≡ true → length lit ≤ length s
unfolding starts_with
starts_with-le s [] h = omega arith
starts_with-le [] (n ∷ lit) h = cc
starts_with-le (b ∷ s) (n ∷ lit) h = ground (arith, starts_with-le s lit)

-- A byte that is read is inside.
pub byte-lt : (s : Bytes) (i c : ℕ) → (get_or s i 0 == c) ≡ true → 0 < c → i < length s
byte-lt [] i c e h = ground arith
byte-lt (b ∷ s) zero c e h = omega arith
byte-lt (b ∷ s) (suc i) c e h = omega (arith, byte-lt s i c e h)

module _ (json : Bytes) where
  -- behind the place `i`, and within the text
  abbrev pub Moved : ℕ → ℕ → Type 0
  Moved i j = (i < j) × (j ≤ length json)

  inside : (i : ℕ) → i ≤ length json → i + length (drop i json) ≡ length json
  inside i h = omega (arith, length-drop i json)

  pub skip_ws-bounds :
      (i : ℕ) → i ≤ length json → (i ≤ skip_ws json i) × (skip_ws json i ≤ length json)
  unfolding skip_ws
  skip_ws-bounds i h = (omega arith, omega (arith, inside i h, ws_len-le (drop i json)))

  pub skip_string-Moved : (i : ℕ) → Ensures (Moved i) (skip_string json i)
  unfolding skip_string
  skip_string-Moved i =
      Ensures-if (get_or json i 0 == 34)
        (λ e. elim (Option-cases (string_end (drop (i + 1) json) (i + 1) false)) [
          | inl none' ↦ rw none' Ensures.refused
          | inr (j, some') ↦
              let lt = byte-lt json i 34 e (omega arith) in
              let (low, high) = string_end-bounds (drop (i + 1) json) (i + 1) false j some' in
              rw some' (
                Ensures.holds
                  (omega (arith, low), omega (arith, lt, high, inside (i + 1) (omega (arith, lt)))))
        ])
        (λ e. Ensures.refused)

  skip_number-Moved : (i : ℕ) → i ≤ length json → Ensures (Moved i) (skip_number json i)
  unfolding skip_number
  skip_number-Moved i h =
      let n = sign_len (drop i json) in
      let sign = sign_len-le (drop i json) in
      let here = inside i h in
      let rest = number_len-le (drop (i + n) json) false false in
      let there = inside (i + n) (omega (arith, sign, here)) in
      Ensures-if (number_len (drop (i + n) json) false false).1
        (λ e.
          Ensures.holds
            (omega (arith, number_len-pos (drop (i + n) json) false e), omega (arith, rest, there)))
        (λ e. Ensures.refused)

  skip_literal-Moved :
      (lit : Bytes) (i : ℕ)
      → 0 < length lit
      → i ≤ length json
      → Ensures (Moved i) (skip_literal json lit i)
  unfolding skip_literal
  skip_literal-Moved lit i p h =
      Ensures-if (starts_with (drop i json) lit)
        (λ e.
          Ensures.holds
            (omega (arith, p), omega (arith, starts_with-le (drop i json) lit e, inside i h)))
        (λ e. Ensures.refused)

  nested_step-Moved :
      (opening closing depth j : ℕ)
      → j < length json
      → Ensures (λ (r : ℕ × ℕ). Moved j r.1) (nested_step json opening closing depth j)
  nested_step-Moved opening closing depth j lt =
      let next : Moved j (j + 1) = (omega arith, omega arith) in
      Ensures-if (get_or json j 0 == 34)
        (λ e. Ensures-and_then (skip_string-Moved j) (λ j' m. Ensures.holds m))
        (λ e.
          Ensures-if (get_or json j 0 == opening) (λ o. Ensures.holds next)
            (λ o.
              Ensures-if (get_or json j 0 == closing) (λ c. Ensures.holds next)
                (λ c. Ensures.holds next)))

  skip_nested-Moved :
      (fuel opening closing depth i j : ℕ)
      → i < j
      → j ≤ length json
      → length json < fuel + j
      → Ensures (Moved i) (skip_nested json fuel opening closing depth j)
  unfolding skip_nested
  skip_nested-Moved zero opening closing depth i j low high enough = absurd (omega arith)
  skip_nested-Moved (suc fuel) opening closing depth i j low high enough =
      elim (Bool-cases (ltb j (length json) && ltb 0 depth)) [
        | inl e ↦
            let lt : j < length json = ground (arith, e) in
            rw (e, skip_nested)
              (Ensures-and_then (nested_step-Moved opening closing depth j lt) (λ (d, j') m.
                skip_nested-Moved fuel opening closing d i j' (omega (arith, m)) m.1
                  (omega (arith, m))))
        | inr e ↦
            rw (e, skip_nested)
              (Ensures-if (depth == 0) (λ z. Ensures.holds (low, high)) (λ z. Ensures.refused))
      ]

  skip_value_at-Moved : (i : ℕ) → i ≤ length json → Ensures (Moved i) (skip_value_at json i)
  unfolding skip_value_at
  skip_value_at-Moved i h =
      let b = get_or json i 0 in
      let nested : (o c : ℕ)
          → i < length json
          → Ensures (Moved i) (skip_nested json (suc (length json)) o c 1 (i + 1)) =
        λ o c lt.
          skip_nested-Moved (suc (length json)) o c 1 i (i + 1) (omega arith) (omega (arith, lt))
            (omega arith) in
      Ensures-if (b == 34) (λ e. skip_string-Moved i)
        (λ _.
          Ensures-if (is_sign b || is_digit b) (λ e. skip_number-Moved i h)
            (λ _.
              Ensures-if (b == 116) (λ e. skip_literal-Moved (codes "true") i (omega arith) h)
                (λ _.
                  Ensures-if (b == 102) (λ e. skip_literal-Moved (codes "false") i (omega arith) h)
                    (λ _.
                      Ensures-if (b == 110)
                        (λ e. skip_literal-Moved (codes "null") i (omega arith) h)
                        (λ _.
                          Ensures-if (b == 123)
                            (λ e. nested 123 125 (byte-lt json i 123 e (omega arith)))
                            (λ _.
                              Ensures-if (b == 91)
                                (λ e. nested 91 93 (byte-lt json i 91 e (omega arith)))
                                (λ _. Ensures.refused)))))))

  -- A value that is passed over ends behind its start and within the text.
  pub skip_value-Moved : (i : ℕ) → i ≤ length json → Ensures (Moved i) (skip_value json i)
  unfolding skip_value
  skip_value-Moved i h =
      let (low, high) = skip_ws-bounds i h in
      Ensures-weaken (skip_value_at-Moved (skip_ws json i) high) (λ j m. (omega (arith, m), m.1))
