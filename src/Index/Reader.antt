-- ===== src/Index/Reader.antt =====
-- Reading the index file: `read_i32`, `read_i16`, `read_u8` and `align_cursor` of
-- src/index/search.rs, and the reads of the header in `load` of src/index/mod.rs.
pub mod RoundTrip
use rinha_rust_tree.Prelude.{
  ℕ, zero, suc, ◌+◌, ◌-◌, ◌*◌, ◌%◌, ◌^◌, Bool, true, false, not, ◌&&◌, List, [], ◌∷◌, Option, none,
  some, ltb, leb, ◌==◌, if◌then◌else◌, length, get_or, take, drop, replicate, set,
}
use rinha_rust_tree.Prelude.Int.{ℤ, pos, negsuc, eqb_ℤ}
use rinha_rust_tree.Index.Words.{i32_at, i16_at, u32_at, i16s_at, as_usize, wrap32}
use rinha_rust_tree.Index.Layout
use rinha_rust_tree.Index.Table.{TreePredicate, PartitionScheme, SpecialistIndex, active_from}
use rinha_rust_tree.Index.Layout.{packed_dims}
use rinha_rust_tree.Index.Writer.{magic_v5}

-- the texts of the `Err` values
pub data LoadError : Type 0 where
  eof_i32 : LoadError
  eof_i16 : LoadError
  eof_u8 : LoadError
  too_short : LoadError
  unsupported_magic : LoadError
  invalid_dimension : ℕ → LoadError
  unsupported_scheme : ℤ → LoadError
  invalid_scale : ℤ → LoadError
  invalid_packed_dims : LoadError
  partition_count_overflow : LoadError
  truncated_partitions : LoadError
  node_count_overflow : LoadError
  truncated_nodes : LoadError
  unaligned_vectors : LoadError
  truncated_vectors : LoadError
  truncated_labels : LoadError
  unaligned_ref_indices : LoadError
  truncated_ref_indices : LoadError
  truncated_class_bits : LoadError

-- `panicked`: `Vec::with_capacity` on a capacity past `isize::MAX` bytes.
pub data Result {ℓ} (A : Type ℓ) : Type ℓ where
  ok : A → Result A
  failed : LoadError → Result A
  panicked : Result A

-- reads at the cursor, and moves it
abbrev pub Reader {ℓ} : Type ℓ → Type ℓ
Reader A = ℕ → Result (A × ℕ)

abbrev pub and_then {ℓ κ} : {A : Type ℓ} {B : Type κ} → Result A → (A → Result B) → Result B
and_then (ok a) f = f a
and_then (failed e) f = failed e
and_then panicked f = panicked

infixl 1 ◌>>=◌
abbrev pub ◌>>=◌ {ℓ κ} : {A : Type ℓ} {B : Type κ} → Reader A → (A → Reader B) → Reader B
p >>= f = λ cursor. and_then (p cursor) λ (a, next). f a next

abbrev pub pure {ℓ} : {A : Type ℓ} → A → Reader A
pure a cursor = ok (a, cursor)

abbrev pub fail {ℓ} : {A : Type ℓ} → LoadError → Reader A
fail e cursor = failed e

unfoldable pub read_i32 : List ℕ → Reader ℤ
unfolding i32_at
read_i32 bytes cursor =
    if ltb (length bytes) (cursor + 4) then failed eof_i32 else ok (i32_at bytes cursor, cursor + 4)

unfoldable pub read_i16 : List ℕ → Reader ℤ
unfolding i16_at
read_i16 bytes cursor =
    if ltb (length bytes) (cursor + 2) then failed eof_i16 else ok (i16_at bytes cursor, cursor + 2)

unfoldable pub read_u8 : List ℕ → Reader ℕ
read_u8 bytes cursor =
    if ltb (length bytes) (cursor + 1)
    then failed eof_u8
    else ok (get_or bytes cursor 0, cursor + 1)

unfoldable pub align_cursor : ℕ → ℕ → ℕ
align_cursor cursor align = cursor + (align - cursor % align) % align

-- the values before the predicates
pub record Header : Type 0 where
  pub scale : ℤ
  pub dims : ℕ
  pub reference_count : ℕ
  pub partition_count : ℕ
  pub node_count : ℕ
  pub total_blocks : ℕ
  pub scheme_id : ℤ
  pub scheme_param : ℕ
  pub legacy_cuts : ℕ
  pub predicate_count : ℕ

unfoldable pub read_header : List ℕ → Reader Header
unfolding read_i32 read_i16
read_header bytes = do
  scale ← read_i32 bytes
  dims ← read_i32 bytes
  reference_count ← read_i32 bytes
  partition_count ← read_i32 bytes
  node_count ← read_i32 bytes
  total_blocks ← read_i32 bytes
  scheme_id ← read_i16 bytes
  scheme_param ← read_i16 bytes
  amount_cut_count ← read_i16 bytes
  dow_cut_count ← read_i16 bytes
  predicate_count ← read_i16 bytes
  pure (record {
    scale = scale;
    dims = as_usize dims;
    reference_count = as_usize reference_count;
    partition_count = as_usize partition_count;
    node_count = as_usize node_count;
    total_blocks = as_usize total_blocks;
    scheme_id = scheme_id;
    scheme_param = as_usize scheme_param;
    legacy_cuts = (as_usize amount_cut_count + as_usize dow_cut_count) % 2 ^ 64;
    predicate_count = as_usize predicate_count;
  })

-- `for _ in 0..(amount_cut_count + dow_cut_count)`
unfoldable pub skip_cuts : ℕ → List ℕ → Reader (Unit {0})
unfolding read_i16
skip_cuts zero bytes = pure tt
skip_cuts (suc n) bytes = read_i16 bytes >>= λ _. skip_cuts n bytes

unfoldable pub check_dimension : ℕ → Bool → Reader (Unit {0})
check_dimension dim enabled =
    if enabled && leb 14 dim then fail (invalid_dimension dim) else pure tt

-- `for _ in 0..predicate_count`
unfoldable pub read_predicates : ℕ → List ℕ → Reader (List TreePredicate)
unfolding read_u8 read_i16 check_dimension
read_predicates zero bytes = pure []
read_predicates (suc n) bytes = do
  dim ← read_u8 bytes
  flags ← read_u8 bytes
  threshold ← read_i16 bytes
  let enabled = not (flags == 0)
  _ ← check_dimension dim enabled
  predicates ← read_predicates n bytes
  pure (record { dim = dim; threshold = threshold; enabled = enabled } ∷ predicates)
