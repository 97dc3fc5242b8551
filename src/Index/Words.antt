-- ===== src/Index/Words.antt =====
-- The machine words of the index: little-endian bytes, and the lanes of the vector instructions.
-- A value is the integer that it stands for; what wraps goes through its bit pattern.
use rinha_rust_tree.Prelude.{
  ℕ, zero, suc, ◌+◌, ◌-◌, ◌*◌, ◌/◌, ◌%◌, ◌^◌, ◌≡◌, List, [], ◌∷◌, arith, if◌then◌else◌, take, drop,
}
use rinha_rust_tree.Prelude.Int.{
  ℤ, pos, negsuc, pos_part, neg_part, ◌-ℤ◌, ◌≤ℤ◌, ltb_ℤ, to_bits, of_bits,
}

-- `from_le_bytes`, and `to_le_bytes` of a w-byte word
unfoldable pub le_value : List ℕ → ℕ
le_value [] = 0
le_value (b ∷ bytes) = b + 256 * le_value bytes

unfoldable pub le_bytes : ℕ → ℕ → List ℕ
le_bytes zero n = []
le_bytes (suc w) n = n % 256 ∷ le_bytes w (n / 256)

abbrev pub wrap16 : ℤ → ℤ
wrap16 z = of_bits (2 ^ 15) (to_bits (2 ^ 16) z)

abbrev pub wrap32 : ℤ → ℤ
wrap32 z = of_bits (2 ^ 31) (to_bits (2 ^ 32) z)

-- `as usize` of an i32: the sign is extended.
abbrev pub as_usize : ℤ → ℕ
as_usize z = to_bits (2 ^ 64) z

-- the four bytes at `off` as an i32 and as a u32, the two as an i16
unfoldable pub i32_at : List ℕ → ℕ → ℤ
unfolding le_value
i32_at bytes off = of_bits (2 ^ 31) (le_value (take 4 (drop off bytes)))

unfoldable pub u32_at : List ℕ → ℕ → ℕ
unfolding le_value
u32_at bytes off = le_value (take 4 (drop off bytes))

unfoldable pub i16_at : List ℕ → ℕ → ℤ
unfolding le_value
i16_at bytes off = of_bits (2 ^ 15) (le_value (take 2 (drop off bytes)))

-- `n` i16 values one behind the other from `off`
unfoldable pub i16s_at : ℕ → List ℕ → ℕ → List ℤ
unfolding i16_at
i16s_at zero bytes off = []
i16s_at (suc n) bytes off = i16_at bytes off ∷ i16s_at n bytes (off + 2)

abbrev pub square : ℤ → ℕ
square z = (pos_part z + neg_part z) * (pos_part z + neg_part z)

-- one lane of `_mm256_sub_epi16`
abbrev pub sub16 : ℤ → ℤ → ℤ
sub16 a b = wrap16 (a -ℤ b)

-- one lane of `_mm256_max_epi16`
abbrev pub max16 : ℤ → ℤ → ℤ
max16 a b = if ltb_ℤ a b then b else a

-- one 32-bit lane of `_mm256_madd_epi16(diff, diff)`
abbrev pub madd : ℤ → ℤ → ℤ
madd a b = wrap32 (pos (square a + square b))

pub wrap32-bounds : (z : ℤ) → (negsuc (2 ^ 31 - 1) ≤ℤ wrap32 z) × (wrap32 z ≤ℤ pos (2 ^ 31 - 1))
wrap32-bounds z = ground arith

-- A value that fits is kept.
pub wrap32-fits : (n : ℕ) → (pos n ≤ℤ pos (2 ^ 31 - 1)) → wrap32 (pos n) ≡ pos n
wrap32-fits n h = ground arith
