-- ===== src/Vector/Fields.antt =====
-- src/vector/helpers.rs: the values that a transaction's fields hold.
use Prim.Native.Nat.{bit_xor}
use rinha_rust_tree.Prelude.{
  ℕ, zero, suc, ◌+◌, ◌-◌, ◌*◌, ◌/◌, ◌%◌, ◌^◌, Bool, true, false, not, ◌&&◌, ◌||◌, List, [], ◌∷◌,
  ◌++◌, Option, none, some, ltb, ◌==◌, if◌then◌else◌, length, get_or, take, drop,
}
use rinha_rust_tree.Prelude.Int.{ℤ, of_bits}
use rinha_rust_tree.Http.Bytes.{Bytes, codes, slice, starts_with}
use rinha_rust_tree.Index.Words.{le_value}
use rinha_rust_tree.Vector.Json.{Result, ok, invalid, invalid_value}
use rinha_rust_tree.Vector.Floats.{Floats, is_digit, fast_parse_f64}

-- `rotate_left(5)` of a u64
abbrev rotate5 : ℕ → ℕ
rotate5 h = h * 32 % 2 ^ 64 + h / 2 ^ 59

-- 0x517cc1b727220a95
abbrev hash_seed : ℕ
hash_seed = 5871781006564002453

abbrev mix : ℕ → ℕ → ℕ
mix hash word = bit_xor (rotate5 hash) word * hash_seed % 2 ^ 64

unfoldable pub hash_tail : ℕ → Bytes → ℕ
hash_tail hash [] = hash
hash_tail hash (b ∷ value) = hash_tail (mix hash b) value

-- `n` words of eight bytes, then the bytes that are left
unfoldable pub hash_words : ℕ → ℕ → Bytes → ℕ
unfolding hash_tail le_value
hash_words zero hash value = hash_tail hash value
hash_words (suc n) hash value = hash_words n (mix hash (le_value (take 8 value))) (drop 8 value)

unfoldable pub hash_bytes : Bytes → ℕ
unfolding hash_words
hash_bytes value = hash_words (length value / 8) hash_seed value

-- `hashes` holds 64 of them, and the rest is dropped.
abbrev pub keep_hash : List ℕ → ℕ → List ℕ
keep_hash hashes h = if ltb (length hashes) 64 then hashes ++ (h ∷ []) else hashes

abbrev pub is_sign : ℕ → Bool
is_sign b = b == 45 || b == 43

-- The number of digits that the bytes begin with.
unfoldable pub digits_len : Bytes → ℕ
digits_len [] = 0
digits_len (b ∷ s) = let rest = digits_len s in if is_digit b then suc rest else 0

-- What follows an `e`: an optional sign and digits.
unfoldable pub exponent_len : Bytes → ℕ
unfolding digits_len
exponent_len [] = 0
exponent_len (b ∷ s) = if is_sign b then suc (digits_len s) else digits_len (b ∷ s)

-- How far a number goes behind its sign, and whether it has a digit.
unfoldable pub number_len : Bytes → Bool → Bool → ℕ × Bool
unfolding exponent_len
number_len [] seen_dot seen_digit = (0, seen_digit)
number_len (b ∷ s) seen_dot seen_digit =
    let dot = b == 46 && not seen_dot in
    let (n, found) = number_len s (seen_dot || dot) (seen_digit || is_digit b) in
    if is_digit b || dot
    then (suc n, found)
    else if (b == 101 || b == 69) && seen_digit
    then (suc (exponent_len s), seen_digit)
    else (0, seen_digit)

abbrev pub sign_len : Bytes → ℕ
sign_len [] = 0
sign_len (b ∷ _) = if is_sign b then 1 else 0

-- A minus sign only.
abbrev pub minus_len : Bytes → ℕ
minus_len [] = 0
minus_len (b ∷ _) = if b == 45 then 1 else 0

abbrev pub or_text {ℓ} : {A : Type ℓ} → Option A → Option A → Result A
or_text (some a) _ = ok a
or_text none (some a) = ok a
or_text none none = invalid invalid_value

module _ (fl : Floats) where
  unfoldable pub read_double_at : Bytes → ℕ → Result fl.F64
  unfolding number_len fast_parse_f64
  read_double_at json start =
      let s = drop start json in
      let n = sign_len s in
      let end = n + (number_len (drop n s) false false).0 in
      let token = take end s in
      if end == 0
      then invalid invalid_value
      else or_text (fast_parse_f64 fl token) (fl.from_text token)

-- The digits as an i32 that wraps, by its bit pattern.
unfoldable pub wrapping_digits : ℕ → Bytes → ℕ
wrapping_digits val [] = val
wrapping_digits val (b ∷ token) = wrapping_digits ((val * 10 + (b - 48)) % 2 ^ 32) token

-- `-val` where the sign is a minus; the release build wraps at i32::MIN.
unfoldable pub signed_i32 : Bool → ℕ → ℤ
signed_i32 minus val = of_bits (2 ^ 31) (if minus then (2 ^ 32 - val) % 2 ^ 32 else val)

unfoldable pub read_int_at : Bytes → ℕ → Result ℤ
unfolding digits_len wrapping_digits signed_i32
read_int_at json start =
    let s = drop start json in
    let n = minus_len s in
    let count = digits_len (drop n s) in
    if count == 0
    then invalid invalid_value
    else ok (signed_i32 (n == 1) (wrapping_digits 0 (take count (drop n s))))

unfoldable pub read_bool_at : Bytes → ℕ → Result Bool
unfolding starts_with
read_bool_at json start =
    let s = drop start json in
    if starts_with s (codes "true")
    then ok true
    else if starts_with s (codes "false")
    then ok false
    else invalid invalid_value

-- Where the string ends whose content is from place `i` on, past escaped bytes.
unfoldable pub string_end : Bytes → ℕ → Bool → Option ℕ
string_end [] i escaped = none
string_end (b ∷ s) i escaped =
    let rest = string_end s (i + 1) (not escaped && b == 92) in
    if not escaped && b == 34 then some i else rest

unfoldable pub read_string_at : Bytes → ℕ → Result Bytes
unfolding string_end
read_string_at json start =
    if not (get_or json start 0 == 34)
    then invalid invalid_value
    else elim (string_end (drop (start + 1) json) (start + 1) false) [
      | none ↦ invalid invalid_value
      | some i ↦ ok (slice json (start + 1) i)
    ]

unfoldable pub is_json_whitespace : ℕ → Bool
is_json_whitespace b = b == 32 || b == 10 || b == 13 || b == 9
