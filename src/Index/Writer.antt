-- ===== src/Index/Writer.antt =====
-- `IndexWriter` of src/index/format.rs: the bytes of the index file. The writer is its buffer; the
-- operations that return `Result` never fail.
use rinha_rust_tree.Prelude.{
  ℕ, ◌+◌, ◌-◌, ◌%◌, ◌^◌, List, [], ◌∷◌, ◌++◌, if◌then◌else◌, length, take, drop, replicate,
}
use rinha_rust_tree.Prelude.Int.{ℤ, pos, to_bits}
use rinha_rust_tree.Index.Words.{le_bytes, wrap16, wrap32}
use rinha_rust_tree.Index.Layout.{packed_dims}
use rinha_rust_tree.Index.Table.{QueryVector, TreePredicate}

abbrev pub Buffer : Type 0
Buffer = List ℕ

-- `RNSPCST5`
abbrev pub magic_v5 : List ℕ
magic_v5 = 82 ∷ 78 ∷ 83 ∷ 80 ∷ 67 ∷ 83 ∷ 84 ∷ 53 ∷ []

unfoldable pub write_u8 : ℕ → Buffer → Buffer
write_u8 v buf = buf ++ (v ∷ [])

unfoldable pub write_i16 : ℤ → Buffer → Buffer
unfolding le_bytes
write_i16 v buf = buf ++ le_bytes 2 (to_bits (2 ^ 16) v)

unfoldable pub write_u32 : ℕ → Buffer → Buffer
unfolding le_bytes
write_u32 v buf = buf ++ le_bytes 4 v

unfoldable pub write_i32 : ℤ → Buffer → Buffer
unfolding le_bytes
write_i32 v buf = buf ++ le_bytes 4 (to_bits (2 ^ 32) v)

-- `for &v in &min`
unfoldable pub write_i16s : List ℤ → Buffer → Buffer
unfolding write_i16
write_i16s [] buf = buf
write_i16s (v ∷ values) buf = write_i16s values (write_i16 v buf)

-- `for predicate in tree_predicates`
unfoldable pub write_predicates : List TreePredicate → Buffer → Buffer
unfolding write_u8 write_i16
write_predicates [] buf = buf
write_predicates (p ∷ predicates) buf =
    write_predicates predicates
      (write_i16 p.threshold (write_u8 (if p.enabled then 1 else 0) (write_u8 p.dim buf)))

unfoldable pub write_header : ℤ → ℤ → ℤ → ℤ → List TreePredicate → Buffer → Buffer
unfolding write_i32 write_i16 write_predicates
write_header scale reference_count scheme_id scheme_param tree_predicates buf =
    let buf = write_i32 (pos packed_dims) (write_i32 scale (buf ++ magic_v5)) in
    let buf =
      write_i32 (pos 0) (write_i32 (pos 0) (write_i32 (pos 0) (write_i32 reference_count buf))) in
    let buf =
      write_i16 (pos 0) (write_i16 (pos 0) (write_i16 scheme_param (write_i16 scheme_id buf))) in
    write_predicates tree_predicates (write_i16 (wrap16 (pos (length tree_predicates))) buf)

-- `buf[offset..offset + 4].copy_from_slice(&count.to_le_bytes())`
unfoldable pub overwrite_i32 : ℕ → ℤ → Buffer → Buffer
unfolding le_bytes
overwrite_i32 offset count buf =
    take offset buf ++ le_bytes 4 (to_bits (2 ^ 32) count) ++ drop (offset + 4) buf

unfoldable pub write_partition_count : ℤ → Buffer → Buffer
unfolding overwrite_i32
write_partition_count count buf = overwrite_i32 (8 + 4 + 4 + 4) count buf

unfoldable pub write_node_count : ℤ → Buffer → Buffer
unfolding overwrite_i32
write_node_count count buf = overwrite_i32 (8 + 4 + 4 + 4 + 4) count buf

unfoldable pub write_block_count : ℤ → Buffer → Buffer
unfolding overwrite_i32
write_block_count count buf = overwrite_i32 (8 + 4 + 4 + 4 + 4 + 4) count buf

unfoldable pub write_partition_entry : ℕ → ℕ → ℕ → QueryVector → QueryVector → Buffer → Buffer
unfolding write_i32 write_u32 write_i16s
write_partition_entry key root len mn mx buf =
    let buf =
      write_i32 (wrap32 (pos len))
        (write_i32 (pos 0) (write_i32 (wrap32 (pos root)) (write_u32 key buf))) in
    write_i16s mx (write_i16s mn buf)

unfoldable pub write_node_entry : ℤ → ℤ → ℕ → ℕ → QueryVector → QueryVector → Buffer → Buffer
unfolding write_i32 write_i16s
write_node_entry left right start len mn mx buf =
    let buf =
      write_i32 (wrap32 (pos len))
        (write_i32 (wrap32 (pos start)) (write_i32 right (write_i32 left buf))) in
    write_i16s mx (write_i16s mn buf)

unfoldable pub align_to : ℕ → Buffer → Buffer
align_to align buf =
    let padding = (align - length buf % align) % align in buf ++ replicate padding 0
