-- ===== src/Index/Build/Tree.antt =====
-- `build_node` ends, and what it builds is a tree over all of its references.
use mathlib.Core.List.{Perm}
use rinha_rust_tree.Prelude.{
  ℕ, zero, suc, ◌+◌, ◌%◌, ◌≤◌, ◌<◌, ◌≡◌, refl, ap, ◌∙◌, true, List, [], ◌++◌, some, arith, ltb,
  length, get_elem?,
}
use rinha_rust_tree.Prelude.Int.{ℤ, pos, negsuc}
use rinha_rust_tree.Prelude.Kept.{Keeps, get_elem?-lt, get_elem?-get_or}
use rinha_rust_tree.Index.Words.{wrap32}
use rinha_rust_tree.Index.Build.{
  Reference, NodeEntry, Lane, Sort, lanes, lane_of, lower, upper, leaf_lanes, empty_node, node_at,
}

-- The sort permutes.
abbrev pub IsSort : Sort → Type 0
IsSort sort = (key : ℕ → ℤ) (indices : List ℕ) → Perm (sort key indices) indices

-- The first node of `nodes` that is looked at is `low`. `depth` bounds the inner nodes of a path.
pub data IsBuilt (references : List Reference) (nodes : List NodeEntry) (blocks : List Lane)
    : ℕ → ℕ → ℕ → List ℕ → Type 0 where
  leaf :
      {low root depth : ℕ} {indices : List ℕ} (e : NodeEntry)
      → low ≤ root
      → get_elem? nodes root ≡ some e
      → e.left ≡ negsuc 0
      → e.len ≡ length indices
      → e.start % lanes ≡ 0
      → ((i idx : ℕ)
          → get_elem? indices i ≡ some idx
          → get_elem? blocks (e.start + i) ≡ some (lane_of references idx))
      → (e.mn ≡ lower references indices) × (e.mx ≡ upper references indices)
      → IsBuilt references nodes blocks low root depth indices
  branch :
      {low root depth left right : ℕ} {indices ls rs : List ℕ} (e : NodeEntry)
      → low ≤ root
      → get_elem? nodes root ≡ some e
      → (e.left ≡ wrap32 (pos left)) × (e.right ≡ wrap32 (pos right))
      → e.len ≡ length indices
      → Perm (ls ++ rs) indices
      → (e.mn ≡ lower references indices) × (e.mx ≡ upper references indices)
      → IsBuilt references nodes blocks low left depth ls
      → IsBuilt references nodes blocks low right depth rs
      → IsBuilt references nodes blocks low root (suc depth) indices

module _ (references : List Reference) where
  -- A built tree stays one when other nodes are written and blocks are added.
  pub IsBuilt-Keeps :
      (nodes nodes' : List NodeEntry) (blocks blocks' : List Lane) (low low' : ℕ)
      → low' ≤ low
      → Keeps low nodes nodes'
      → Keeps 0 blocks blocks'
      → {root depth : ℕ} {indices : List ℕ} → IsBuilt references nodes blocks low root depth indices
      → IsBuilt references nodes' blocks' low' root depth indices
  IsBuilt-Keeps nodes nodes' blocks blocks' low low' le kn kb
        (IsBuilt.leaf e above at l len start places box) =
      IsBuilt.leaf e (omega arith) (kn _ _ above at) l len start
        (λ i idx h. kb _ _ (omega arith) (places i idx h)) box
  IsBuilt-Keeps nodes nodes' blocks blocks' low low' le kn kb
        (IsBuilt.branch e above at children len perm box l r) =
      IsBuilt.branch e (omega arith) (kn _ _ above at) children len perm box
        (IsBuilt-Keeps nodes nodes' blocks blocks' low low' le kn kb l)
        (IsBuilt-Keeps nodes nodes' blocks blocks' low low' le kn kb r)

  pub root_entry :
      {nodes : List NodeEntry} {blocks : List Lane} {low root depth : ℕ} {indices : List ℕ}
      → IsBuilt references nodes blocks low root depth indices
      → (node_at nodes root).len ≡ length indices
  root_entry {nodes} {root = root} (IsBuilt.leaf e above at l len start places box) =
      ap (λ n. n.len) (get_elem?-get_or nodes root e (empty_node [] []) at) ∙ len
  root_entry {nodes} {root = root} (IsBuilt.branch e above at children len perm box l r) =
      ap (λ n. n.len) (get_elem?-get_or nodes root e (empty_node [] []) at) ∙ len

  pub length-leaf_lanes :
      (n j : ℕ) (indices : List ℕ) → length (leaf_lanes n j references indices) ≡ n
  unfolding leaf_lanes
  length-leaf_lanes zero j indices = refl
  length-leaf_lanes (suc n) j indices = ap suc (length-leaf_lanes n (j + 1) indices)

  pub get_elem?-leaf_lanes :
      (n j i : ℕ) (indices : List ℕ) (idx : ℕ)
      → i < n
      → get_elem? indices (j + i) ≡ some idx
      → get_elem? (leaf_lanes n j references indices) i ≡ some (lane_of references idx)
  unfolding leaf_lanes
  get_elem?-leaf_lanes zero j i indices idx h e = absurd (omega arith)
  get_elem?-leaf_lanes (suc n) j zero indices idx h e =
      let z : j + 0 ≡ j = omega arith in
      let e' : get_elem? indices j ≡ some idx = rw z at e in
      let lt = get_elem?-lt indices j idx e' in
      let inside : ltb j (length indices) ≡ true = ground arith in
      rw (inside, get_elem?-get_or indices j idx 0 e') refl
  get_elem?-leaf_lanes (suc n) j (suc i) indices idx h e =
      let z : j + suc i ≡ j + 1 + i = omega arith in
      get_elem?-leaf_lanes n (j + 1) i indices idx (omega arith) (rw z at e)
