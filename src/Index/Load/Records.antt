-- ===== src/Index/Load/Records.antt =====
-- The records of nodes and partitions that src/index/format.rs writes: four words and a box, and
-- how they read in place.
use mathlib.Core.List.{append_assoc, append-nil}
use rinha_rust_tree.Prelude.{
  ℕ, zero, suc, ◌+◌, ◌*◌, ◌/◌, ◌%◌, ◌^◌, ◌<◌, ◌≡◌, refl, ap, sym, ◌∙◌, List, [], ◌∷◌, ◌++◌, arith,
  length, get_elem?, some, drop, length-append, All,
}
use rinha_rust_tree.Prelude.Int.{ℤ, pos, to_bits}
use rinha_rust_tree.Index.Words.{
  le_bytes, le_value, i32_at, i16_at, u32_at, i16s_at, as_usize, wrap32, wrap32-fits,
}
use rinha_rust_tree.Index.Layout
use rinha_rust_tree.Index.Build.{NodeEntry, lanes}
use rinha_rust_tree.Index.Build.File.{write_nodes}
use rinha_rust_tree.Index.Writer.{Buffer, write_i16s, write_i16, write_i32, write_node_entry}
use rinha_rust_tree.Index.Reader.RoundTrip.{
  Left, Left-append, Fits16, Fits32, word16, word32, drop-drop,
}
pub mod Nodes
pub mod Partitions

abbrev pub i32_bytes : ℤ → List ℕ
i32_bytes v = le_bytes 4 (to_bits (2 ^ 32) v)

abbrev i16_bytes : ℤ → List ℕ
i16_bytes v = le_bytes 2 (to_bits (2 ^ 16) v)

unfoldable pub i16s_bytes : List ℤ → List ℕ
i16s_bytes [] = []
i16s_bytes (v ∷ values) = i16_bytes v ++ i16s_bytes values

write_i16s-append :
    (values : List ℤ) (buf : Buffer) → write_i16s values buf ≡ buf ++ i16s_bytes values
unfolding write_i16s write_i16 i16s_bytes
write_i16s-append [] buf = sym (append-nil buf)
write_i16s-append (v ∷ values) buf =
    write_i16s-append values _ ∙ append_assoc buf (i16_bytes v) (i16s_bytes values)

length-i16s_bytes : (values : List ℤ) → length (i16s_bytes values) ≡ 2 * length values
unfolding i16s_bytes le_bytes
length-i16s_bytes [] = refl
length-i16s_bytes (v ∷ values) = omega (arith, length-i16s_bytes values)

i16s_at_lem :
    (bytes : List ℕ) (off : ℕ) (values : List ℤ) (rest : List ℕ)
    → Left bytes off (i16s_bytes values ++ rest)
    → All Fits16 values
    → i16s_at (length values) bytes off ≡ values
unfolding i16s_at i16_at i16s_bytes le_bytes
i16s_at_lem bytes off [] rest h fits = refl
i16s_at_lem bytes off (v ∷ values) rest h fits =
    let h' : Left bytes off (i16_bytes v ++ (i16s_bytes values ++ rest)) = h in
    let next = Left-append bytes off (i16_bytes v) (i16s_bytes values ++ rest) h' in
    rw (h, word16 v fits.0, i16s_at_lem bytes (off + 2) values rest next fits.1)

-- four i32 and two boxes: a node's record, and a partition's but for the type of its key
abbrev pub record_bytes : List ℕ → ℤ → ℤ → ℤ → List ℤ → List ℤ → List ℕ
record_bytes first a b c mn mx =
    first ++ (i32_bytes a ++ (i32_bytes b ++ (i32_bytes c ++ (i16s_bytes mn ++ i16s_bytes mx))))

pub write_record :
    (first : List ℕ) (a b c : ℤ) (mn mx : List ℤ) (buf : Buffer)
    → write_i16s mx (write_i16s mn (write_i32 c (write_i32 b (write_i32 a (buf ++ first)))))
      ≡ buf ++ record_bytes first a b c mn mx
unfolding write_i32
write_record first a b c mn mx buf =
    write_i16s-append mx _
    ∙ ap (λ out. out ++ i16s_bytes mx) (write_i16s-append mn _)
    ∙ simp append_assoc

pub i32_at_lem :
    (base : List ℕ) (off : ℕ) (v : ℤ) (rest : List ℕ)
    → Left base off (i32_bytes v ++ rest)
    → Fits32 v
    → i32_at base off ≡ v
unfolding i32_at le_bytes
i32_at_lem base off v rest h fits = rw (h, word32 v fits)

-- a record at `at`, with its first four bytes
pub record Reads (base : List ℕ) (at : ℕ) (first : List ℕ) (a b c : ℤ) (mn mx : List ℤ)
    : Type 0 where
  pub others : List ℕ
  pub first_at : Left base at (first ++ others)
  pub a_at : i32_at base (at + 4) ≡ a
  pub b_at : i32_at base (at + 8) ≡ b
  pub c_at : i32_at base (at + 12) ≡ c
  pub mn_at : i16s_at 16 base (at + 16) ≡ mn
  pub mx_at : i16s_at 16 base (at + 48) ≡ mx

pub record FitsFields (a b c : ℤ) (mn mx : List ℤ) : Type 0 where
  pub a_fits : Fits32 a
  pub b_fits : Fits32 b
  pub c_fits : Fits32 c
  pub mn_fits : All Fits16 mn
  pub mx_fits : All Fits16 mx
  pub mn_size : length mn ≡ 16
  pub mx_size : length mx ≡ 16

pub record_bytes-Reads :
    (base : List ℕ) (at : ℕ) (first : List ℕ) (a b c : ℤ) (mn mx : List ℤ) (rest : List ℕ)
    → Left base at (record_bytes first a b c mn mx ++ rest)
    → length first ≡ 4
    → FitsFields a b c mn mx
    → Reads base at first a b c mn mx
unfolding le_bytes
record_bytes-Reads base at first a b c mn mx rest h four f =
    let r5 = i16s_bytes mx ++ rest in
    let r4 = i16s_bytes mn ++ r5 in
    let r3 = i32_bytes c ++ r4 in
    let r2 = i32_bytes b ++ r3 in
    let r1 = i32_bytes a ++ r2 in
    let h0 : Left base at (first ++ r1) = h ∙ simp append_assoc in
    let e1 : at + length first ≡ at + 4 = omega (arith, four) in
    let h1 : Left base (at + 4) r1 = rw e1 at (Left-append base at first r1 h0) in
    let e2 : at + 4 + 4 ≡ at + 8 = omega arith in
    let h2 : Left base (at + 8) r2 = rw e2 at (Left-append base (at + 4) (i32_bytes a) r2 h1) in
    let e3 : at + 8 + 4 ≡ at + 12 = omega arith in
    let h3 : Left base (at + 12) r3 = rw e3 at (Left-append base (at + 8) (i32_bytes b) r3 h2) in
    let e4 : at + 12 + 4 ≡ at + 16 = omega arith in
    let h4 : Left base (at + 16) r4 = rw e4 at (Left-append base (at + 12) (i32_bytes c) r4 h3) in
    let e5 : at + 16 + length (i16s_bytes mn) ≡ at + 48 =
      omega (arith, length-i16s_bytes mn, f.mn_size) in
    let h5 : Left base (at + 48) r5 = rw e5 at (Left-append base (at + 16) (i16s_bytes mn) r5 h4) in
    record {
      others = r1;
      first_at = h0;
      a_at = i32_at_lem base (at + 4) a r2 h1 f.a_fits;
      b_at = i32_at_lem base (at + 8) b r3 h2 f.b_fits;
      c_at = i32_at_lem base (at + 12) c r4 h3 f.c_fits;
      mn_at = rw f.mn_size at (i16s_at_lem base (at + 16) mn r5 h4 f.mn_fits);
      mx_at = rw f.mx_size at (i16s_at_lem base (at + 48) mx rest h5 f.mx_fits);
    }

pub length-record_bytes :
    (first : List ℕ) (a b c : ℤ) (mn mx : List ℤ)
    → length first ≡ 4
    → length mn ≡ 16
    → length mx ≡ 16
    → length (record_bytes first a b c mn mx) ≡ 80
unfolding le_bytes
length-record_bytes first a b c mn mx four sixteen sixteen' =
    let boxes = i16s_bytes mn ++ i16s_bytes mx in
    omega (
      arith,
      length-append first (i32_bytes a ++ (i32_bytes b ++ (i32_bytes c ++ boxes))),
      length-append (i16s_bytes mn) (i16s_bytes mx),
      length-i16s_bytes mn,
      length-i16s_bytes mx,
    )

pub wrap32-bytes :
    (n : ℕ) → n < 2 ^ 31 → (wrap32 (pos n) ≡ pos n) × Fits32 (pos n) × (as_usize (pos n) ≡ n)
wrap32-bytes n h = (wrap32-fits n (omega arith), (omega arith, omega arith), omega arith)
