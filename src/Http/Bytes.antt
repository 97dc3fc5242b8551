-- ===== src/Http/Bytes.antt =====
-- Byte strings, and the slice functions that the parsers use.
use Prim.Native.Char.{code}
use Prim.Native.String.{String}
use rinha_rust_tree.Prelude.{
  ℕ, zero, suc, ◌+◌, ◌-◌, ◌≤◌, ◌<◌, ◌≡◌, refl, ap, ◌∙◌, Bool, true, false, ◌&&◌, List, [], ◌∷◌,
  ◌++◌, Option, none, some, arith, inl, inr, ◌==◌, if◌then◌else◌, Option-cases, get_or, length,
  take, drop, length-drop,
}

abbrev pub Bytes : Type 0
Bytes = List ℕ

-- the bytes of an ASCII literal
abbrev pub codes : String → Bytes
codes String.[] = []
codes (String.◌∷◌ c s) = code c ∷ codes s

-- `iter().position(..)`
unfoldable pub position : (ℕ → Bool) → Bytes → Option ℕ
position p [] = none
position p (b ∷ bytes) =
    let rest = position p bytes in
    if p b then some 0 else elim rest [ none ↦ none | some i ↦ some (suc i) ]

-- `&bytes[a..b]`
abbrev pub slice : Bytes → ℕ → ℕ → Bytes
slice bytes a b = take (b - a) (drop a bytes)

unfoldable pub same_bytes : Bytes → Bytes → Bool
same_bytes [] [] = true
same_bytes (a ∷ xs) (b ∷ ys) = a == b && same_bytes xs ys
same_bytes _ _ = false

-- `starts_with`
unfoldable pub starts_with : Bytes → Bytes → Bool
starts_with bytes [] = true
starts_with [] (n ∷ needle) = false
starts_with (b ∷ bytes) (n ∷ needle) = b == n && starts_with bytes needle

-- What `memmem` of the C library documents: the first place where the needle stands.
pub record IsMemmem (memmem : Bytes → Bytes → Option ℕ) : Type 0 where
  pub found :
      (bytes needle : Bytes) (i : ℕ)
      → memmem bytes needle ≡ some i
      → starts_with (drop i bytes) needle ≡ true
  pub first :
      (bytes needle : Bytes) (i j : ℕ)
      → memmem bytes needle ≡ some i
      → starts_with (drop j bytes) needle ≡ true
      → i ≤ j
  pub missing :
      (bytes needle : Bytes) (j : ℕ)
      → memmem bytes needle ≡ none
      → starts_with (drop j bytes) needle ≡ false

pub position-lt :
    (p : ℕ → Bool) (bytes : Bytes) (i : ℕ) → position p bytes ≡ some i → i < length bytes
unfolding position
position-lt p [] i e = cc
position-lt p (b ∷ bytes) zero e = omega arith
position-lt p (b ∷ bytes) (suc i) e = ground (arith, position-lt p bytes i)

pub position-append :
    (p : ℕ → Bool) (bytes more : Bytes) (i : ℕ)
    → position p bytes ≡ some i
    → position p (bytes ++ more) ≡ some i
unfolding position
position-append p [] more i e = cc
position-append p (b ∷ bytes) more zero e = ground arith
position-append p (b ∷ bytes) more (suc i) e = ground (arith, position-append p bytes more i)

-- No byte before the position passes the test.
pub position-first :
    (p : ℕ → Bool) (bytes : Bytes) (i j : ℕ)
    → position p bytes ≡ some i
    → j < length bytes
    → p (get_or bytes j 0) ≡ true
    → i ≤ j
unfolding position
position-first p [] i j e l h = absurd (omega arith)
position-first p (b ∷ bytes) zero j e l h = omega arith
position-first p (b ∷ bytes) (suc i) zero e l h = ground arith
position-first p (b ∷ bytes) (suc i) (suc j) e l h = ground (arith, position-first p bytes i j)

pub take-append_le :
    (n : ℕ) (bytes more : Bytes) → n ≤ length bytes → take n (bytes ++ more) ≡ take n bytes
take-append_le zero bytes more h = refl
take-append_le (suc n) [] more h = absurd (omega arith)
take-append_le (suc n) (b ∷ bytes) more h = ap (◌∷◌ b) (take-append_le n bytes more (omega arith))

pub drop-append_le :
    (n : ℕ) (bytes more : Bytes) → n ≤ length bytes → drop n (bytes ++ more) ≡ drop n bytes ++ more
drop-append_le zero bytes more h = refl
drop-append_le (suc n) [] more h = absurd (omega arith)
drop-append_le (suc n) (b ∷ bytes) more h = drop-append_le n bytes more (omega arith)

-- A slice inside a buffer does not change when the buffer grows.
pub slice-append :
    (bytes more : Bytes) (a b : ℕ)
    → a ≤ b
    → b ≤ length bytes
    → slice (bytes ++ more) a b ≡ slice bytes a b
slice-append bytes more a b h g =
    rw (drop-append_le a bytes more (omega arith))
      (take-append_le (b - a) (drop a bytes) more (omega (arith, length-drop a bytes)))

pub starts_with-append :
    (bytes more needle : Bytes)
    → starts_with bytes needle ≡ true
    → starts_with (bytes ++ more) needle ≡ true
unfolding starts_with
starts_with-append bytes more [] h = refl
starts_with-append [] more (n ∷ needle) h = cc
starts_with-append (b ∷ bytes) more (n ∷ needle) h =
    ground (arith, starts_with-append bytes more needle)

pub starts_with-length :
    (bytes needle : Bytes) → starts_with bytes needle ≡ true → length needle ≤ length bytes
unfolding starts_with
starts_with-length bytes [] h = omega arith
starts_with-length [] (n ∷ needle) h = cc
starts_with-length (b ∷ bytes) (n ∷ needle) h = ground (arith, starts_with-length bytes needle)

-- What stands within the buffer already stood there before it grew.
pub starts_with-shrink :
    (bytes more needle : Bytes)
    → length needle ≤ length bytes
    → starts_with (bytes ++ more) needle ≡ true
    → starts_with bytes needle ≡ true
unfolding starts_with
starts_with-shrink bytes more [] l h = refl
starts_with-shrink [] more (n ∷ needle) l h = absurd (omega arith)
starts_with-shrink (b ∷ bytes) more (n ∷ needle) l h =
    ground (arith, starts_with-shrink bytes more needle)

module _ {memmem : Bytes → Bytes → Option ℕ} (m : IsMemmem memmem) where
  -- A first match stays the first match when bytes are appended.
  pub memmem-append :
      (bytes more needle : Bytes) (i : ℕ)
      → memmem bytes needle ≡ some i
      → 0 < length needle
      → memmem (bytes ++ more) needle ≡ some i
  memmem-append bytes more needle i e h =
      let here = m.found bytes needle i e in
      let fits = starts_with-length (drop i bytes) needle here in
      let inside : i ≤ length bytes = omega (arith, length-drop i bytes) in
      let still : starts_with (drop i (bytes ++ more)) needle ≡ true =
        rw (drop-append_le i bytes more inside)
          (starts_with-append (drop i bytes) more needle here) in
      elim (Option-cases (memmem (bytes ++ more) needle)) [
        | inl none_there ↦ cc (still, m.missing (bytes ++ more) needle i none_there)
        | inr (j, e') ↦
            let le = m.first (bytes ++ more) needle j i e' still in
            let there =
              rw (drop-append_le j bytes more (omega arith)) at
                (m.found (bytes ++ more) needle j e') in
            let back =
              starts_with-shrink (drop j bytes) more needle
                (omega (arith, length-drop i bytes, length-drop j bytes)) there in
            let ge = m.first bytes needle i j e back in
            let same : j ≡ i = omega arith in e' ∙ ap some same
      ]

  -- A match lies within the buffer.
  pub memmem-le :
      (bytes needle : Bytes) (i : ℕ)
      → memmem bytes needle ≡ some i
      → 0 < length needle
      → i + length needle ≤ length bytes
  memmem-le bytes needle i e h = omega (
    arith,
    length-drop i bytes,
    starts_with-length (drop i bytes) needle (m.found bytes needle i e),
  )
