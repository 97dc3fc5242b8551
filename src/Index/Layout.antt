-- ===== src/Index/Layout.antt =====
-- src/index/layout.rs: the records of the index file, read in place.
-- A base pointer is the list of the bytes from there on.
use rinha_rust_tree.Prelude.{ℕ, ◌+◌, ◌*◌, List}
use rinha_rust_tree.Prelude.Int.{ℤ}
use rinha_rust_tree.Index.Words.{i32_at, u32_at, i16s_at, as_usize}

abbrev pub packed_dims : ℕ
packed_dims = 16

abbrev pub partition_stride : ℕ
partition_stride = 80

abbrev pub node_stride : ℕ
node_stride = 80

unfoldable pub partition_key : List ℕ → ℕ → ℕ
unfolding u32_at
partition_key partitions_base idx = u32_at partitions_base (idx * partition_stride + 0)

unfoldable pub partition_root : List ℕ → ℕ → ℕ
unfolding i32_at
partition_root partitions_base idx = as_usize (i32_at partitions_base (idx * partition_stride + 4))

unfoldable pub partition_min : List ℕ → ℕ → List ℤ
unfolding i16s_at
partition_min partitions_base idx =
    i16s_at packed_dims partitions_base (idx * partition_stride + 16)

unfoldable pub partition_max : List ℕ → ℕ → List ℤ
unfolding i16s_at
partition_max partitions_base idx =
    i16s_at packed_dims partitions_base (idx * partition_stride + 48)

unfoldable pub node_left : List ℕ → ℕ → ℤ
unfolding i32_at
node_left nodes_base idx = i32_at nodes_base (idx * node_stride + 0)

unfoldable pub node_right : List ℕ → ℕ → ℤ
unfolding i32_at
node_right nodes_base idx = i32_at nodes_base (idx * node_stride + 4)

unfoldable pub node_start : List ℕ → ℕ → ℕ
unfolding i32_at
node_start nodes_base idx = as_usize (i32_at nodes_base (idx * node_stride + 8))

unfoldable pub node_len : List ℕ → ℕ → ℕ
unfolding i32_at
node_len nodes_base idx = as_usize (i32_at nodes_base (idx * node_stride + 12))

unfoldable pub node_min : List ℕ → ℕ → List ℤ
unfolding i16s_at
node_min nodes_base idx = i16s_at packed_dims nodes_base (idx * node_stride + 16)

unfoldable pub node_max : List ℕ → ℕ → List ℤ
unfolding i16s_at
node_max nodes_base idx = i16s_at packed_dims nodes_base (idx * node_stride + 48)
