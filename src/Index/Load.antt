-- ===== src/Index/Load.antt =====
-- `open` and `load` of src/index/mod.rs, and `from_header` of src/index/partition_scheme.rs.
-- A pointer into the mapping is the list of the bytes from there on; the mapping's file handling,
-- the log line and the hints to the kernel are left out. Sizes are `usize` of 64 bits, and their
-- unchecked arithmetic wraps.
pub mod RoundTrip
pub mod Table
pub mod Records
use rinha_rust_tree.Prelude.{
  ℕ, zero, suc, ◌+◌, ◌-◌, ◌*◌, ◌%◌, ◌^◌, Bool, true, false, not, ◌&&◌, List, [], ◌∷◌, Option, none,
  some, ltb, leb, ◌==◌, if◌then◌else◌, length, get_or, take, drop, replicate, set,
}
use rinha_rust_tree.Prelude.Int.{ℤ, pos, negsuc, eqb_ℤ}
use rinha_rust_tree.Index.Words.{i32_at, i16_at, u32_at, i16s_at, as_usize, wrap32}
use rinha_rust_tree.Index.Layout
use rinha_rust_tree.Index.Table.{TreePredicate, PartitionScheme, SpecialistIndex, active_from}
use rinha_rust_tree.Index.Layout.{packed_dims}
use rinha_rust_tree.Index.Writer.{magic_v5}
use rinha_rust_tree.Index.Reader.{
  LoadError, Result, ok, failed, panicked, too_short, unsupported_magic, unsupported_scheme,
  invalid_scale, invalid_packed_dims, partition_count_overflow, truncated_partitions,
  node_count_overflow, truncated_nodes, unaligned_vectors, truncated_vectors, truncated_labels,
  unaligned_ref_indices, truncated_ref_indices, truncated_class_bits, Reader, ◌>>=◌, pure, fail,
  align_cursor, Header, read_header, skip_cuts, read_predicates,
}

-- `Vec::with_capacity(predicate_count)`, four bytes to a predicate
unfoldable pub reserve : ℕ → Reader (Unit {0})
reserve count cursor = if leb (2 ^ 63) (count * 4) then panicked else ok (tt, cursor)

abbrev pub scheme_id_learned_tree : ℤ
scheme_id_learned_tree = pos 2

unfoldable pub from_header : ℤ → ℕ → List TreePredicate → Reader PartitionScheme
from_header scheme_id scheme_param tree_predicates =
    if eqb_ℤ scheme_id scheme_id_learned_tree
    then pure (record { tree_depth = scheme_param; tree_predicates = tree_predicates })
    else fail (unsupported_scheme scheme_id)

abbrev pub require : Bool → LoadError → Reader (Unit {0})
require true e = pure tt
require false e = fail e

-- `size` bytes from the cursor on, which is moved behind them
unfoldable pub section : LoadError → ℕ → List ℕ → Reader (List ℕ)
section truncated size bytes cursor =
    let next = (cursor + size) % 2 ^ 64 in
    if ltb (length bytes) next then failed truncated else ok (drop cursor bytes, next)

-- with `checked_mul` of the count and the stride
unfoldable pub strided_section : LoadError → LoadError → ℕ → ℕ → List ℕ → Reader (List ℕ)
unfolding section
strided_section overflow truncated count stride bytes =
    if leb (2 ^ 64) (count * stride)
    then fail overflow
    else section truncated (count * stride) bytes

abbrev pub key_lookup_size : ℕ
key_lookup_size = 1024

-- The loop that maps a partition's key to its place, `n` partitions left from `idx` on.
unfoldable pub fill_table : ℕ → ℕ → List ℕ → List ℤ → List ℤ
unfolding Layout.partition_key
fill_table zero idx partitions_base table = table
fill_table (suc n) idx partitions_base table =
    let key = Layout.partition_key partitions_base idx in
    fill_table n (idx + 1) partitions_base
      (if ltb key key_lookup_size then set table key (wrap32 (pos idx)) else table)

-- `n` u32 values from the start of the list
unfoldable pub u32s : ℕ → List ℕ → List ℕ
unfolding u32_at
u32s zero bytes = []
u32s (suc n) bytes = u32_at bytes 0 ∷ u32s n (drop 4 bytes)

unfoldable pub unless_aligned : ℕ → LoadError → Reader (Unit {0})
unless_aligned align e cursor = if cursor % align == 0 then ok (tt, cursor) else failed e

unfoldable pub align : ℕ → Reader (Unit {0})
unfolding align_cursor
align n cursor = ok (tt, align_cursor cursor n)

-- what the environment of the process gives
pub record Settings : Type 0 where
  pub scale : ℤ
  pub early_exit_threshold : ℤ
  pub label_defer : Bool

-- The header and the predicates, with the checks on them.
unfoldable pub load_header : Settings → List ℕ → Reader (Header × PartitionScheme)
unfolding read_header skip_cuts reserve read_predicates from_header
load_header settings bytes = do
  header ← read_header bytes
  _ ← skip_cuts header.legacy_cuts bytes
  _ ← reserve header.predicate_count
  predicates ← read_predicates header.predicate_count bytes
  scheme ← from_header header.scheme_id header.scheme_param predicates
  _ ← require (eqb_ℤ header.scale settings.scale) (invalid_scale header.scale)
  _ ← require (header.dims == packed_dims) invalid_packed_dims
  pure (header, scheme)

-- The sections behind the header.
unfoldable pub load_sections : Settings → Header → PartitionScheme → List ℕ → Reader SpecialistIndex
unfolding strided_section section fill_table u32s unless_aligned align active_from i16s_at
load_sections settings header scheme bytes = do
  partitions_base ←
      strided_section partition_count_overflow truncated_partitions header.partition_count
        Layout.partition_stride bytes
  let table =
      fill_table header.partition_count 0 partitions_base (replicate key_lookup_size (negsuc 0))
  nodes_base ←
      strided_section node_count_overflow truncated_nodes header.node_count Layout.node_stride bytes
  let vectors_len = header.total_blocks * 14 * 8 % 2 ^ 64
  _ ← unless_aligned 2 unaligned_vectors
  vectors ← section truncated_vectors (vectors_len * 2 % 2 ^ 64) bytes
  let labels_len = header.total_blocks * 8 % 2 ^ 64
  labels ← section truncated_labels labels_len bytes
  _ ← align 4
  _ ← unless_aligned 4 unaligned_ref_indices
  ref_indices ← section truncated_ref_indices (labels_len * 4 % 2 ^ 64) bytes
  node_class_bits ← section truncated_class_bits header.node_count bytes
  pure (record {
    reference_count = header.reference_count;
    partitions_base = partitions_base;
    partition_count = header.partition_count;
    key_to_partition = table;
    active_keys = active_from 0 table;
    partition_scheme = scheme;
    nodes_base = nodes_base;
    node_count = header.node_count;
    vectors = i16s_at vectors_len vectors 0;
    labels = take labels_len labels;
    ref_indices = u32s labels_len ref_indices;
    node_class_bits = take header.node_count node_class_bits;
    early_exit_threshold = settings.early_exit_threshold;
    label_defer = settings.label_defer;
  })

unfoldable pub load : Settings → List ℕ → Reader SpecialistIndex
unfolding load_header load_sections
load settings bytes =
    load_header settings bytes >>= λ (header, scheme). load_sections settings header scheme bytes

abbrev value {ℓ} : {A : Type ℓ} → Result (A × ℕ) → Result A
value (ok (a, _)) = ok a
value (failed e) = failed e
value panicked = panicked

abbrev same_bytes : List ℕ → List ℕ → Bool
same_bytes [] [] = true
same_bytes (a ∷ xs) (b ∷ ys) = (a == b) && same_bytes xs ys
same_bytes _ _ = false

-- `open`, with the contents of the file
unfoldable pub open_index : Settings → List ℕ → Result SpecialistIndex
unfolding load
open_index settings bytes =
    if ltb (length bytes) 8
    then failed too_short
    else if same_bytes (take 8 bytes) magic_v5
    then value (load settings bytes 8)
    else failed unsupported_magic
