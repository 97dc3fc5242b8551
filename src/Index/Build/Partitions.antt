-- ===== src/Index/Build/Partitions.antt =====
-- `build_index` ends, and has built one tree for each key of the partitions.
use mathlib.Core.List.{map-append, append_assoc, append-nil}
use rinha_rust_tree.Prelude.{
  ℕ, suc, ◌+◌, ◌*◌, ◌%◌, ◌^◌, ◌≤◌, ◌≡◌, refl, sym, ◌∙◌, List, [], ◌∷◌, ◌++◌, map, some, arith,
  length, length-append, All, All-append,
}
use rinha_rust_tree.Prelude.Kept.{Keeps}
use rinha_rust_tree.Prelude.Int.{ℤ}
use rinha_rust_tree.Index.Table.{PartitionScheme}
use rinha_rust_tree.Index.Predict.{compute_tree_key}
use rinha_rust_tree.Index.Build.{Reference, Building, KdSplitStrategy, Sort, lanes}
use rinha_rust_tree.Index.Build.Tree.{IsSort, IsBuilt, IsBuilt-Keeps}
use rinha_rust_tree.Index.Build.Node.{build_node_lem}
use rinha_rust_tree.Index.Build.File.{
  Groups, push_index, group_from, indices_of, keys_of, Meta, build_partitions, write_index,
  clamp_leaf, build_index,
}

push_index-le :
    (key key' idx : ℕ) (groups : Groups)
    → length (indices_of key (push_index key' idx groups)) ≤ suc (length (indices_of key groups))
unfolding indices_of push_index
push_index-le key key' idx [] = ground arith
push_index-le key key' idx ((k, indices) ∷ groups) =
    ground (arith, push_index-le key key' idx groups, length-append indices (idx ∷ []))

indices_of-nil : (key : ℕ) → length (indices_of key []) ≡ 0
unfolding indices_of
indices_of-nil key = refl

group_from-le :
    (scheme : PartitionScheme) (key idx : ℕ) (references : List Reference) (groups : Groups)
    → length (indices_of key (group_from scheme idx references groups))
      ≤ length references + length (indices_of key groups)
unfolding group_from
group_from-le scheme key idx [] groups = omega arith
group_from-le scheme key idx (r ∷ references) groups =
    let k = compute_tree_key r.vector scheme.tree_depth scheme.tree_predicates in
    omega (
      arith,
      group_from-le scheme key (idx + 1) references (push_index k idx groups),
      push_index-le key k idx groups,
    )

module _ (sort : Sort) (permutes : IsSort sort) (references : List Reference) (leaf_size : ℕ)
    (strategy : KdSplitStrategy) (depth : ℕ) (groups : Groups) where
  -- The roots of the partitions lead to trees over their references.
  abbrev pub AreBuilt : Building → Meta → Type 0
  AreBuilt st partition_meta =
      All (λ m. IsBuilt references st.nodes st.all_blocks 0 m.1 depth (indices_of m.0 groups))
        partition_meta

  AreBuilt-Keeps :
      (st st' : Building) (partition_meta : Meta)
      → Keeps 0 st.nodes st'.nodes
      → Keeps 0 st.all_blocks st'.all_blocks
      → AreBuilt st partition_meta
      → AreBuilt st' partition_meta
  AreBuilt-Keeps st st' [] kn kb h = tt
  AreBuilt-Keeps st st' (m ∷ partition_meta) kn kb h = (
    IsBuilt-Keeps references st.nodes st'.nodes st.all_blocks st'.all_blocks 0 0 (omega arith) kn kb
        h.0,
    AreBuilt-Keeps st st' partition_meta kn kb h.1,
  )

  build_partitions_lem :
      (keys : List ℕ) (st : Building) (partition_meta : Meta)
      → ((key : ℕ) → length (indices_of key groups) ≤ leaf_size * 2 ^ depth)
      → length st.all_blocks % lanes ≡ 0
      → AreBuilt st partition_meta
      → (st' : Building) × (metas : Meta) × (build_partitions sort references leaf_size strategy
            (suc depth)
            groups
            keys
            st
            partition_meta
          ≡ some (st', metas))
        × AreBuilt st' metas
        × (map (λ m. m.0) metas ≡ map (λ m. m.0) partition_meta ++ keys)
        × (length st'.all_blocks % lanes ≡ 0)
  unfolding build_partitions
  build_partitions_lem [] st partition_meta small even built =
      (st, partition_meta, refl, built, sym (append-nil _), even)
  build_partitions_lem (key ∷ keys) st partition_meta small even built =
      let b =
        build_node_lem sort permutes references leaf_size strategy depth (indices_of key groups) st
          (small key) even in
      let root = length st.nodes in
      let first : (x : ℕ × ℕ) → ℕ = λ x. x.0 in
      let moved : map first (partition_meta ++ ((key, root) ∷ [])) ++ keys
          ≡ map first partition_meta ++ (key ∷ keys) =
        rw (map-append first partition_meta ((key, root) ∷ []))
          (append_assoc (map first partition_meta) (key ∷ []) keys) in
      let kept = AreBuilt-Keeps st b.after partition_meta b.nodes_kept b.blocks_kept built in
      let tree =
        IsBuilt-Keeps references b.after.nodes b.after.nodes b.after.all_blocks b.after.all_blocks
          root 0 (omega arith) (λ i a h e. e) (λ i a h e. e) b.tree in
      let (st', metas, found, built', keys', even') =
        build_partitions_lem keys b.after (partition_meta ++ ((key, root) ∷ [])) small b.aligned
          (All-append _ partition_meta _ kept (tree, tt)) in
      (st', metas, rw b.found found, built', keys' ∙ moved, even')

-- With a depth at which the halves of all references fit in a leaf, the build ends with a file; its
-- partitions are those of the keys, in the sorted order, and their roots lead to their trees.
pub build_index_lem :
    (scale : ℤ) (sort : Sort) (sort_keys : List ℕ → List ℕ) (strategy : KdSplitStrategy) (depth : ℕ)
    (references : List Reference) (leaf_size : ℕ) (scheme : PartitionScheme)
    → IsSort sort
    → length references ≤ clamp_leaf leaf_size * 2 ^ depth
    → let groups = group_from scheme 0 references [] in
      (st : Building) × (metas : Meta) × (build_index scale sort sort_keys strategy
          (suc depth)
          references
          leaf_size
          scheme
        ≡ some (write_index scale references scheme st metas))
      × All
          (λ m. IsBuilt references st.nodes st.all_blocks 0 m.1 depth (indices_of m.0 groups))
          metas
      × (map (λ m. m.0) metas ≡ sort_keys (keys_of groups))
unfolding build_index
build_index_lem scale sort sort_keys strategy depth references leaf_size scheme permutes h =
    let groups = group_from scheme 0 references [] in
    let (st, metas, found, built, keys, even) =
      build_partitions_lem sort permutes references (clamp_leaf leaf_size) strategy depth groups
        (sort_keys (keys_of groups)) (record { all_blocks = []; nodes = [] }) []
        (λ key. omega (arith, h, group_from-le scheme key 0 references [], indices_of-nil key)) refl
        tt in
    (st, metas, rw found refl, built, keys)
