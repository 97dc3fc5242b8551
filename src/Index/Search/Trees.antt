-- ===== src/Index/Search/Trees.antt =====
-- What the node table holds below a node, and what a search still has to look at.
use rinha_rust_tree.Prelude.{
  ℕ, suc, ◌+◌, ◌≤◌, max, ◌≡◌, ◌⊎◌, true, false, List, [], ◌∷◌, ◌++◌, arith, length, All,
}
use rinha_rust_tree.Prelude.Int.{ℤ, pos, ◌≤ℤ◌, ltb_ℤ}
use rinha_rust_tree.Index.Words.{as_usize}
use rinha_rust_tree.Index.Layout
use rinha_rust_tree.Index.Table.{QueryVector, SpecialistIndex}
use rinha_rust_tree.Index.Scan.Leaf.{Place, IsStored, leaf_places, slot_at_place}
use rinha_rust_tree.Index.Defer.{Frame}
use rinha_rust_tree.Index.Search.{child, tree_stack_capacity}

-- `Tree ix query node places size depth`: below `node` the table is a tree with `size` nodes and
-- `depth` edges on its longest way down; its leaves hold the vectors at `places`, all of them in the
-- file, and the box of every node but the root bounds the distances below it: the bound that
-- `lower_bound_box` computes for the query is not above the distance, with its wrap-around, that a
-- scan computes for a vector of the subtree.
pub data Tree (ix : SpecialistIndex) (query : QueryVector) : ℕ → List Place → ℕ → ℕ → Type 0 where
  leaf :
      (node : ℕ)
      → (ltb_ℤ (Layout.node_left ix.nodes_base node) (pos 0) ≡ true)
        ⊎ (ltb_ℤ (Layout.node_right ix.nodes_base node) (pos 0) ≡ true)
      → All (IsStored ix) (leaf_places ix node)
      → Tree ix query node (leaf_places ix node) 1 0
  branch :
      (node l r : ℕ) {ps qs : List Place} {m n d e : ℕ}
      → ltb_ℤ (Layout.node_left ix.nodes_base node) (pos 0) ≡ false
      → ltb_ℤ (Layout.node_right ix.nodes_base node) (pos 0) ≡ false
      → as_usize (Layout.node_left ix.nodes_base node) ≡ l
      → as_usize (Layout.node_right ix.nodes_base node) ≡ r
      → Tree ix query l ps m d
      → Tree ix query r qs n e
      → All (λ p. (child ix query l).bound ≤ℤ (slot_at_place ix query p).dist) ps
      → All (λ p. (child ix query r).bound ≤ℤ (slot_at_place ix query p).dist) qs
      → Tree ix query node (ps ++ qs) (suc (m + n)) (suc (max d e))

-- The stack's subtrees, with all their places and their number of nodes. A subtree is pushed at a
-- height that leaves room for its depth.
pub data Frames (ix : SpecialistIndex) (query : QueryVector)
    : List Frame → List Place → ℕ → Type 0 where
  empty : Frames ix query [] [] 0
  push :
      (node : ℕ) (bound : ℤ) {stack : List Frame} {ps qs : List Place} {m n d : ℕ}
      → Tree ix query node ps m d
      → All (λ p. bound ≤ℤ (slot_at_place ix query p).dist) ps
      → length stack + d ≤ tree_stack_capacity
      → Frames ix query stack qs n
      → Frames ix query (record { node = node; bound = bound } ∷ stack) (ps ++ qs) (m + n)

pub Tree-size_pos :
    {ix : SpecialistIndex} {query : QueryVector} {node m d : ℕ} {ps : List Place}
    → Tree ix query node ps m d
    → 1 ≤ m
Tree-size_pos (leaf node h stored) = omega arith
Tree-size_pos (branch node l r h g e f t u a b) = omega arith
