-- ===== src/Vector/Skip.antt =====
-- src/vector/single_pass.rs: passing over white space and values.
pub mod Progress
use rinha_rust_tree.Prelude.{
  ℕ, zero, suc, ◌+◌, ◌-◌, Bool, true, false, ◌&&◌, ◌||◌, List, [], ◌∷◌, Option, none, some, ltb,
  ◌==◌, if◌then◌else◌, length, get_or, drop,
}
use rinha_rust_tree.Http.Bytes.{Bytes, codes, starts_with}
use rinha_rust_tree.Vector.Json.{
  Result, ok, invalid, out_of_fuel, invalid_value, invalid_format, and_then,
}
use rinha_rust_tree.Vector.Floats.{is_digit}
use rinha_rust_tree.Vector.Fields.{is_sign, sign_len, number_len, string_end, is_json_whitespace}

unfoldable pub ws_len : Bytes → ℕ
unfolding is_json_whitespace
ws_len [] = 0
ws_len (b ∷ s) = let rest = ws_len s in if is_json_whitespace b then suc rest else 0

module _ (json : Bytes) where
  unfoldable pub skip_ws : ℕ → ℕ
  unfolding ws_len
  skip_ws i = i + ws_len (drop i json)

  -- the place behind the closing quote
  unfoldable pub skip_string : ℕ → Result ℕ
  unfolding string_end
  skip_string i =
      if get_or json i 0 == 34
      then elim (string_end (drop (i + 1) json) (i + 1) false) [
        | none ↦ invalid invalid_format
        | some j ↦ ok (j + 1)
      ]
      else invalid invalid_format

  unfoldable pub skip_number : ℕ → Result ℕ
  unfolding number_len
  skip_number i =
      let n = sign_len (drop i json) in
      let (count, seen_digit) = number_len (drop (i + n) json) false false in
      if seen_digit then ok (i + n + count) else invalid invalid_value

  unfoldable pub skip_literal : Bytes → ℕ → Result ℕ
  unfolding starts_with
  skip_literal lit i =
      if starts_with (drop i json) lit then ok (i + length lit) else invalid invalid_format

  -- How the depth and the place change on the byte at `j`.
  abbrev pub nested_step : ℕ → ℕ → ℕ → ℕ → Result (ℕ × ℕ)
  nested_step opening closing depth j =
      let b = get_or json j 0 in
      if b == 34
      then and_then (skip_string j) (λ j'. ok (depth, j'))
      else if b == opening
      then ok (depth + 1, j + 1)
      else if b == closing
      then ok (depth - 1, j + 1)
      else ok (depth, j + 1)

  -- `while j < json.len() && depth > 0`, and the test behind it
  unfoldable pub skip_nested : ℕ → ℕ → ℕ → ℕ → ℕ → Result ℕ
  unfolding skip_string
  skip_nested zero opening closing depth j = out_of_fuel
  skip_nested (suc fuel) opening closing depth j = elim (ltb j (length json) && ltb 0 depth) [
    | true ↦
        and_then (nested_step opening closing depth j)
          λ (depth', j'). skip_nested fuel opening closing depth' j'
    | false ↦ if depth == 0 then ok j else invalid invalid_format
  ]

  -- the arms of the match on the first byte
  unfoldable pub skip_value_at : ℕ → Result ℕ
  unfolding skip_string skip_number skip_literal skip_nested
  skip_value_at i =
      let b = get_or json i 0 in
      let fuel = suc (length json) in
      if b == 34
      then skip_string i
      else if is_sign b || is_digit b
      then skip_number i
      else if b == 116
      then skip_literal (codes "true") i
      else if b == 102
      then skip_literal (codes "false") i
      else if b == 110
      then skip_literal (codes "null") i
      else if b == 123
      then skip_nested fuel 123 125 1 (i + 1)
      else if b == 91
      then skip_nested fuel 91 93 1 (i + 1)
      else invalid invalid_format

  unfoldable pub skip_value : ℕ → Result ℕ
  unfolding skip_ws skip_value_at
  skip_value i = skip_value_at (skip_ws i)
