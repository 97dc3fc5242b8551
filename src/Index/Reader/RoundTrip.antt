-- ===== src/Index/Reader/RoundTrip.antt =====
-- What `IndexWriter` writes, the readers read back. A reader's input is seen as what is left of the
-- file at its cursor.
use mathlib.Core.List.{append_assoc, append-nil}
use rinha_rust_tree.Prelude.{
  ℕ, zero, suc, ◌+◌, ◌-◌, ◌*◌, ◌/◌, ◌%◌, ◌^◌, ◌<◌, ◌≡◌, refl, ap, sym, ◌∙◌, Bool, true, false, not,
  List, [], ◌∷◌, ◌++◌, arith, ltb, ◌==◌, if◌then◌else◌, length, get_or, drop, length-drop,
  length-append, drop-append, All,
}
use rinha_rust_tree.Prelude.Int.{ℤ, pos, negsuc, ◌≤ℤ◌, to_bits, of_bits}
use rinha_rust_tree.Index.Words.{le_value, le_bytes, i32_at, i16_at}
use rinha_rust_tree.Index.Table.{TreePredicate}
use rinha_rust_tree.Index.Writer.{write_u8, write_i16, write_predicates}
use rinha_rust_tree.Index.Reader.{ok, read_i32, read_i16, read_u8, check_dimension, read_predicates}

pub le_value-le_bytes : (w n : ℕ) → n < 256 ^ w → le_value (le_bytes w n) ≡ n
unfolding le_value le_bytes
le_value-le_bytes zero n h = omega arith
le_value-le_bytes (suc w) n h =
    let e : 256 ^ suc w ≡ 256 * 256 ^ w = omega arith in
    omega (arith, le_value-le_bytes w (n / 256) (omega arith))

abbrev pub Fits32 : ℤ → Type 0
Fits32 v = (negsuc (2 ^ 31 - 1) ≤ℤ v) × (v ≤ℤ pos (2 ^ 31 - 1))

abbrev pub Fits16 : ℤ → Type 0
Fits16 v = (negsuc (2 ^ 15 - 1) ≤ℤ v) × (v ≤ℤ pos (2 ^ 15 - 1))

pub word32 : (v : ℤ) → Fits32 v → of_bits (2 ^ 31) (le_value (le_bytes 4 (to_bits (2 ^ 32) v))) ≡ v
word32 (pos n) h = rw (le_value-le_bytes 4 (n % 2 ^ 32) (omega arith)) (ground arith)
word32 (negsuc n) h =
    rw (le_value-le_bytes 4 (2 ^ 32 - 1 - n % 2 ^ 32) (omega arith)) (ground arith)

pub word16 : (v : ℤ) → Fits16 v → of_bits (2 ^ 15) (le_value (le_bytes 2 (to_bits (2 ^ 16) v))) ≡ v
word16 (pos n) h = rw (le_value-le_bytes 2 (n % 2 ^ 16) (omega arith)) (ground arith)
word16 (negsuc n) h =
    rw (le_value-le_bytes 2 (2 ^ 16 - 1 - n % 2 ^ 16) (omega arith)) (ground arith)

pub drop-drop : {A : Type 0} (m n : ℕ) (xs : List A) → drop n (drop m xs) ≡ drop (m + n) xs
drop-drop zero n xs = let e : zero + n ≡ n = omega arith in rw e
drop-drop (suc m) zero [] = let e : suc m + zero ≡ suc m = omega arith in rw e
drop-drop (suc m) (suc n) [] = let e : suc m + suc n ≡ suc (m + suc n) = omega arith in rw e
drop-drop (suc m) n (x ∷ xs) =
    let e : suc m + n ≡ suc (m + n) = omega arith in rw e (drop-drop m n xs)

module _ (bytes : List ℕ) where
  -- `rest` is what is left of the file at the cursor.
  abbrev pub Left : ℕ → List ℕ → Type 0
  Left cursor rest = drop cursor bytes ≡ rest

  -- Behind a chunk, the rest is left.
  pub Left-append :
      (cursor : ℕ) (chunk rest : List ℕ)
      → Left cursor (chunk ++ rest)
      → Left (cursor + length chunk) rest
  Left-append cursor chunk rest h =
      sym (drop-drop cursor (length chunk) bytes)
      ∙ ap (drop (length chunk)) h
      ∙ drop-append chunk rest

  enough :
      (cursor : ℕ) (chunk rest : List ℕ)
      → Left cursor (chunk ++ rest)
      → 0 < length chunk
      → ltb (length bytes) (cursor + length chunk) ≡ false
  enough cursor chunk rest h nonempty =
      let e : length (drop cursor bytes) ≡ length (chunk ++ rest) = ap length h in
      ground (arith, e, length-drop cursor bytes, length-append chunk rest)

  pub read_i32_lem :
      (cursor : ℕ) (v : ℤ) (rest : List ℕ)
      → Left cursor (le_bytes 4 (to_bits (2 ^ 32) v) ++ rest)
      → Fits32 v
      → (read_i32 bytes cursor ≡ ok (v, cursor + 4)) × Left (cursor + 4) rest
  unfolding read_i32 i32_at le_bytes
  read_i32_lem cursor v rest h fits =
      let chunk = le_bytes 4 (to_bits (2 ^ 32) v) in
      (
        rw (enough cursor chunk rest h (omega arith), h, word32 v fits) refl,
        Left-append cursor chunk rest h,
      )

  pub read_i16_lem :
      (cursor : ℕ) (v : ℤ) (rest : List ℕ)
      → Left cursor (le_bytes 2 (to_bits (2 ^ 16) v) ++ rest)
      → Fits16 v
      → (read_i16 bytes cursor ≡ ok (v, cursor + 2)) × Left (cursor + 2) rest
  unfolding read_i16 i16_at le_bytes
  read_i16_lem cursor v rest h fits =
      let chunk = le_bytes 2 (to_bits (2 ^ 16) v) in
      (
        rw (enough cursor chunk rest h (omega arith), h, word16 v fits) refl,
        Left-append cursor chunk rest h,
      )

  get_or-drop : (xs : List ℕ) (n d : ℕ) → get_or xs n d ≡ get_or (drop n xs) 0 d
  get_or-drop [] zero d = refl
  get_or-drop [] (suc n) d = refl
  get_or-drop (x ∷ xs) zero d = refl
  get_or-drop (x ∷ xs) (suc n) d = get_or-drop xs n d

  pub read_u8_lem :
      (cursor v : ℕ) (rest : List ℕ)
      → Left cursor (v ∷ rest)
      → (read_u8 bytes cursor ≡ ok (v, cursor + 1)) × Left (cursor + 1) rest
  unfolding read_u8
  read_u8_lem cursor v rest h = (
    rw (enough cursor (v ∷ []) rest h (omega arith), get_or-drop bytes cursor 0, h) refl,
    Left-append cursor (v ∷ []) rest h,
  )

-- the bytes of a predicate of the tree, and of a list of them
unfoldable pub predicate_bytes : TreePredicate → List ℕ
unfolding le_bytes
predicate_bytes p = p.dim ∷ (if p.enabled then 1 else 0) ∷ le_bytes 2 (to_bits (2 ^ 16) p.threshold)

unfoldable pub predicates_bytes : List TreePredicate → List ℕ
unfolding predicate_bytes
predicates_bytes [] = []
predicates_bytes (p ∷ predicates) = predicate_bytes p ++ predicates_bytes predicates

pub write_predicates-append :
    (predicates : List TreePredicate) (buf : List ℕ)
    → write_predicates predicates buf ≡ buf ++ predicates_bytes predicates
unfolding write_predicates write_u8 write_i16 predicates_bytes predicate_bytes le_bytes
write_predicates-append [] buf = sym (append-nil buf)
write_predicates-append (p ∷ predicates) buf =
    write_predicates-append predicates _ ∙ simp append_assoc

-- An enabled predicate tests one of the 14 dimensions.
abbrev pub IsPredicate : TreePredicate → Type 0
IsPredicate p = (p.enabled ≡ true → p.dim < 14) × Fits16 p.threshold

check_dimension-ok :
    (p : TreePredicate) (cursor : ℕ)
    → IsPredicate p
    → check_dimension p.dim p.enabled cursor ≡ ok (tt, cursor)
unfolding check_dimension
check_dimension-ok p cursor h = ground (arith, h.0)

flag : (b : Bool) → not ((if b then 1 else 0) == 0) ≡ b
flag true = refl
flag false = refl

pub read_predicates_lem :
    (bytes : List ℕ) (cursor : ℕ) (predicates : List TreePredicate) (rest : List ℕ)
    → Left bytes cursor (predicates_bytes predicates ++ rest)
    → All IsPredicate predicates
    → (read_predicates (length predicates) bytes cursor
        ≡ ok (predicates, cursor + 4 * length predicates))
      × Left bytes (cursor + 4 * length predicates) rest
unfolding read_predicates predicates_bytes predicate_bytes
read_predicates_lem bytes cursor [] rest h ok_ps =
    let e : cursor + 0 ≡ cursor = omega arith in rw e (refl, h)
read_predicates_lem bytes cursor (p ∷ predicates) rest h ok_ps =
    let tail = predicates_bytes predicates ++ rest in
    let (e0, h0) = read_u8_lem bytes cursor p.dim _ h in
    let (e1, h1) = read_u8_lem bytes (cursor + 1) (if p.enabled then 1 else 0) _ h0 in
    let (e2, h2) =
      read_i16_lem bytes (cursor + 1 + 1) p.threshold tail
        (h1
          ∙ append_assoc (le_bytes 2 (to_bits (2 ^ 16) p.threshold)) (predicates_bytes predicates)
              rest)
        ok_ps.0.1 in
    let (e3, h3) = read_predicates_lem bytes (cursor + 1 + 1 + 2) predicates rest h2 ok_ps.1 in
    let c : cursor + 4 * length (p ∷ predicates) ≡ cursor + 1 + 1 + 2 + 4 * length predicates =
      omega arith in
    rw c (
      rw (e0, e1, e2, flag p.enabled, check_dimension-ok p (cursor + 1 + 1 + 2) ok_ps.0, e3) refl,
      h3,
    )
