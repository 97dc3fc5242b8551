-- ===== src/Index/Build/File.antt =====
-- `build_index` of src/index/build.rs: the partitions, their trees, and the file. The scheme is the
-- one that `prepare` leaves. The `HashMap` of the partitions is an association list, whose keys are
-- taken in the order that the parameter `sort_keys` gives them, the standard library's
-- `sort_unstable`. The writes do not fail.
use rinha_rust_tree.Prelude.{
  ℕ, zero, suc, ◌+◌, ◌*◌, ◌/◌, min, max, List, [], ◌∷◌, ◌++◌, map, Option, some, ◌==◌,
  if◌then◌else◌, length, get_or,
}
use rinha_rust_tree.Prelude.Int.{ℤ, pos}
use rinha_rust_tree.Index.Words.{wrap16, wrap32}
use rinha_rust_tree.Index.Table.{dim, PartitionScheme}
use rinha_rust_tree.Index.Predict.{compute_tree_key}
use rinha_rust_tree.Index.Writer.{
  Buffer, write_u8, write_i16, write_u32, write_header, write_partition_count, write_node_count,
  write_block_count, write_partition_entry, write_node_entry, align_to,
}
use rinha_rust_tree.Index.Load.{scheme_id_learned_tree}
use rinha_rust_tree.Index.Build.{
  Reference, NodeEntry, Lane, Building, KdSplitStrategy, Sort, lanes, dims, padding, node_at,
  build_node, ◌>>=◌,
}

abbrev pub Groups : Type 0
Groups = List (ℕ × List ℕ)

-- `partitions.entry(key).or_default().push(idx)`
unfoldable pub push_index : ℕ → ℕ → Groups → Groups
push_index key idx [] = (key, idx ∷ []) ∷ []
push_index key idx ((k, indices) ∷ groups) =
    let rest = push_index key idx groups in
    if k == key then (k, indices ++ (idx ∷ [])) ∷ groups else (k, indices) ∷ rest

-- `for (idx, ref_item) in references.iter().enumerate()`, from `idx` on
unfoldable pub group_from : PartitionScheme → ℕ → List Reference → Groups → Groups
unfolding push_index compute_tree_key
group_from scheme idx [] groups = groups
group_from scheme idx (r ∷ references) groups =
    let key = compute_tree_key r.vector scheme.tree_depth scheme.tree_predicates in
    group_from scheme (idx + 1) references (push_index key idx groups)

-- `&partitions[key]`
unfoldable pub indices_of : ℕ → Groups → List ℕ
indices_of key [] = []
indices_of key ((k, indices) ∷ groups) =
    let rest = indices_of key groups in if k == key then indices else rest

abbrev pub keys_of : Groups → List ℕ
keys_of groups = map (λ g. g.0) groups

-- a partition's key, and the root of its tree
abbrev pub Meta : Type 0
Meta = List (ℕ × ℕ)

module _ (sort : Sort) (references : List Reference) (leaf_size : ℕ)
    (strategy : KdSplitStrategy) where
  -- `for key in &sorted_keys`
  unfoldable pub build_partitions : ℕ → Groups → List ℕ → Building → Meta → Option (Building × Meta)
  unfolding build_node indices_of
  build_partitions fuel groups [] st partition_meta = some (st, partition_meta)
  build_partitions fuel groups (key ∷ keys) st partition_meta =
      build_node sort references leaf_size strategy fuel (indices_of key groups) st
      >>= λ (st', root).
          build_partitions fuel groups keys st' (partition_meta ++ ((key, root) ∷ []))

unfoldable pub write_partitions : List NodeEntry → Meta → Buffer → Buffer
unfolding write_partition_entry
write_partitions nodes [] buf = buf
write_partitions nodes ((key, root) ∷ partition_meta) buf =
    let root_node = node_at nodes root in
    write_partitions nodes partition_meta
      (write_partition_entry key root root_node.len root_node.mn root_node.mx buf)

unfoldable pub write_nodes : List NodeEntry → Buffer → Buffer
unfolding write_node_entry
write_nodes [] buf = buf
write_nodes (node ∷ nodes) buf =
    write_nodes nodes
      (write_node_entry node.left node.right (node.start / lanes) node.len node.mn node.mx buf)

abbrev pub block_lane : List Lane → ℕ → ℕ → Lane
block_lane all_blocks b l = get_or all_blocks (b * lanes + l) padding

-- `for l in 0..LANES`, `n` lanes left from `l` on, of pair `pair` of block `b`
unfoldable pub write_pair : ℕ → ℕ → List Lane → ℕ → ℕ → Buffer → Buffer
unfolding write_i16
write_pair zero l all_blocks b pair buf = buf
write_pair (suc n) l all_blocks b pair buf =
    let v = (block_lane all_blocks b l).vector in
    write_pair n (l + 1) all_blocks b pair
      (write_i16 (dim v (pair * 2 + 1)) (write_i16 (dim v (pair * 2)) buf))

unfoldable pub write_block : ℕ → ℕ → List Lane → ℕ → Buffer → Buffer
unfolding write_pair
write_block zero pair all_blocks b buf = buf
write_block (suc n) pair all_blocks b buf =
    write_block n (pair + 1) all_blocks b (write_pair lanes 0 all_blocks b pair buf)

unfoldable pub write_blocks : ℕ → ℕ → List Lane → Buffer → Buffer
unfolding write_block
write_blocks zero b all_blocks buf = buf
write_blocks (suc n) b all_blocks buf =
    write_blocks n (b + 1) all_blocks (write_block (dims / 2) 0 all_blocks b buf)

-- The loops over the blocks and their lanes, as one over the `n` lanes from `i` on.
unfoldable pub write_labels : ℕ → ℕ → List Lane → Buffer → Buffer
unfolding write_u8
write_labels zero i all_blocks buf = buf
write_labels (suc n) i all_blocks buf =
    write_labels n (i + 1) all_blocks (write_u8 (get_or all_blocks i padding).label buf)

unfoldable pub write_ref_indices : ℕ → ℕ → List Lane → Buffer → Buffer
unfolding write_u32
write_ref_indices zero i all_blocks buf = buf
write_ref_indices (suc n) i all_blocks buf =
    write_ref_indices n (i + 1) all_blocks (write_u32 (get_or all_blocks i padding).index buf)

unfoldable pub write_class_bits : List NodeEntry → Buffer → Buffer
unfolding write_u8
write_class_bits [] buf = buf
write_class_bits (node ∷ nodes) buf = write_class_bits nodes (write_u8 node.class_bits buf)

-- what stands behind the header
unfoldable pub write_body : Building → Meta → Buffer → Buffer
unfolding write_partitions write_nodes write_blocks write_labels align_to write_ref_indices
    write_class_bits write_block_count
write_body st partition_meta buf =
    let total_blocks = length st.all_blocks / lanes in
    let buf = write_nodes st.nodes (write_partitions st.nodes partition_meta buf) in
    let buf = write_block_count (wrap32 (pos total_blocks)) buf in
    let buf =
      write_labels (total_blocks * lanes) 0 st.all_blocks
        (write_blocks total_blocks 0 st.all_blocks buf) in
    write_class_bits st.nodes
      (write_ref_indices (total_blocks * lanes) 0 st.all_blocks (align_to 4 buf))

unfoldable pub write_index : ℤ → List Reference → PartitionScheme → Building → Meta → Buffer
unfolding write_header write_partition_count write_node_count write_body
write_index scale references scheme st partition_meta =
    let buf =
      write_header scale (wrap32 (pos (length references))) scheme_id_learned_tree
        (wrap16 (pos scheme.tree_depth)) scheme.tree_predicates [] in
    let buf = write_partition_count (wrap32 (pos (length partition_meta))) buf in
    write_body st partition_meta (write_node_count (wrap32 (pos (length st.nodes))) buf)

-- `leaf_size.clamp(LANES, 2048)`
abbrev pub clamp_leaf : ℕ → ℕ
clamp_leaf leaf_size = min (max leaf_size lanes) 2048

unfoldable pub build_index :
    ℤ
    → Sort
    → (List ℕ → List ℕ)
    → KdSplitStrategy
    → ℕ
    → List Reference
    → ℕ
    → PartitionScheme
    → Option Buffer
unfolding group_from build_partitions write_index
build_index scale sort sort_keys strategy fuel references leaf_size scheme =
    let groups = group_from scheme 0 references [] in
    build_partitions sort references (clamp_leaf leaf_size) strategy fuel groups
      (sort_keys (keys_of groups)) (record { all_blocks = []; nodes = [] }) []
    >>= λ (st, partition_meta). some (write_index scale references scheme st partition_meta)
