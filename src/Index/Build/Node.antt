-- ===== src/Index/Build/Node.antt =====
-- `build_node` ends within a depth that halves the references, and builds their tree.
use mathlib.Core.List.{Perm}
use rinha_rust_tree.Prelude.{
  ℕ, zero, suc, ◌+◌, ◌-◌, ◌*◌, ◌/◌, ◌%◌, ◌^◌, ◌≤◌, ◌<◌, ◌≡◌, refl, ◌∙◌, inl, inr, List, [], ◌∷◌,
  ◌++◌, Option, some, arith, leb, Bool-cases, leb-false, length, take, drop, set, length-take,
  length-drop, length-append, length-set, take-drop,
}
use rinha_rust_tree.Prelude.Kept.{
  Keeps, Keeps-append, get_elem?-append, get_elem?-set, get_elem?-lt, Keeps-set,
  get_elem?-set_above, Keeps-trans, length-perm,
}
use rinha_rust_tree.Index.Build.{
  Reference, NodeEntry, Building, KdSplitStrategy, Sort, lanes, lower, upper, leaf_lanes,
  empty_node, build_leaf, join, split_sorted, build_node, ◌>>=◌,
}
use rinha_rust_tree.Index.Build.Tree.{
  IsSort, IsBuilt, IsBuilt-Keeps, root_entry, length-leaf_lanes, get_elem?-leaf_lanes,
}

-- A run that pushed the tree of `indices` behind what stood in `st`.
pub record Builds (references : List Reference) (st : Building) (depth : ℕ) (indices : List ℕ)
    (r : Option (Building × ℕ)) : Type 0 where
  pub after : Building
  pub found : r ≡ some (after, length st.nodes)
  pub nodes_kept : Keeps 0 st.nodes after.nodes
  pub blocks_kept : Keeps 0 st.all_blocks after.all_blocks
  pub aligned : length after.all_blocks % lanes ≡ 0
  pub longer : length st.nodes < length after.nodes
  pub tree :
      IsBuilt references after.nodes after.all_blocks
        (length st.nodes)
        (length st.nodes)
        depth
        indices

-- What the last write leaves of the nodes below and above it.
Keeps-push_set :
    (xs ys : List NodeEntry) (e e' : NodeEntry)
    → Keeps 0 (xs ++ (e ∷ [])) ys
    → Keeps 0 xs (set ys (length xs) e')
Keeps-push_set xs ys e e' kept i a h at =
    get_elem?-set_above ys (length xs) e' i a (get_elem?-lt xs i a at)
      (kept i a h (Keeps-append xs (e ∷ []) i a h at))

length-push : (xs : List NodeEntry) (e : NodeEntry) → length (xs ++ (e ∷ [])) ≡ suc (length xs)
length-push xs e = omega (arith, length-append xs (e ∷ []))

module _ (references : List Reference) where
  build_leaf-Builds :
      (indices : List ℕ) (e : NodeEntry) (st : Building) (depth : ℕ)
      → length st.all_blocks % lanes ≡ 0
      → Builds references st depth indices (
          some (
            build_leaf references indices
                (length st.nodes)
                (record st { nodes = st.nodes ++ (e ∷ []) }),
            length st.nodes,
          ))
  unfolding build_leaf
  build_leaf-Builds indices e st depth even =
      let n = (length indices + lanes - 1) / lanes * lanes in
      let more = leaf_lanes n 0 references indices in
      let longer = length-push st.nodes e in
      record {
        after =
            build_leaf references indices (length st.nodes)
              (record st { nodes = st.nodes ++ (e ∷ []) });
        found = refl;
        nodes_kept = Keeps-push_set st.nodes _ e _ (λ i a h at. at);
        blocks_kept = Keeps-append st.all_blocks more;
        aligned = omega (
          arith,
          even,
          length-append st.all_blocks more,
          length-leaf_lanes references n 0 indices,
        );
        longer = rw (length-set, longer) (omega arith);
        tree =
            IsBuilt.leaf _ (omega arith)
              (get_elem?-set (st.nodes ++ (e ∷ [])) (length st.nodes) _ (omega (arith, longer)))
              refl refl even
              (λ i idx h.
                get_elem?-append st.all_blocks more i
                ∙ get_elem?-leaf_lanes references n 0 i indices idx
                    (omega (arith, get_elem?-lt indices i idx h))
                    (let z : 0 + i ≡ i = omega arith in rw z h))
              (refl, refl);
      }

module _ (sort : Sort) (permutes : IsSort sort) (references : List Reference) (leaf_size : ℕ)
    (strategy : KdSplitStrategy) where
  abbrev run : ℕ → List ℕ → Building → Option (Building × ℕ)
  run = build_node sort references leaf_size strategy

  -- Two children that were built one behind the other.
  join-Builds :
      (fuel : ℕ) (indices : List ℕ) (e : NodeEntry) (st : Building) (depth : ℕ) (ls rs : List ℕ)
      → Perm (ls ++ rs) indices
      → (l : Builds references
          (record st { nodes = st.nodes ++ (e ∷ []) })
          depth
          ls
          (run fuel ls (record st { nodes = st.nodes ++ (e ∷ []) })))
      → Builds references l.after depth rs (run fuel rs l.after)
      → Builds references st (suc depth) indices (do
        (st1, left_node) ← run fuel ls (record st { nodes = st.nodes ++ (e ∷ []) })
        (st2, right_node) ← run fuel rs st1
        some (
          join
              (lower references indices)
              (upper references indices)
              (length st.nodes)
              left_node
              right_node
              st2,
          length st.nodes,
        ))
  unfolding join
  join-Builds fuel indices e st depth ls rs perm l r =
      let at = length st.nodes in
      let left = length (st.nodes ++ (e ∷ [])) in
      let right = length l.after.nodes in
      let push : left ≡ suc at = length-push st.nodes e in
      let second = l.longer in
      let last = r.longer in
      let after =
        join (lower references indices) (upper references indices) at left right r.after in
      let l_tree =
        IsBuilt-Keeps references l.after.nodes r.after.nodes l.after.all_blocks r.after.all_blocks
          left left (omega arith) (λ i a h. r.nodes_kept i a (omega arith)) r.blocks_kept l.tree in
      let moved : Keeps left r.after.nodes after.nodes =
        λ i a h. Keeps-set r.after.nodes at _ i a (omega (arith, push, h)) in
      let same : Keeps 0 r.after.all_blocks after.all_blocks = λ i a h f. f in
      let count = length-perm perm in
      rw (l.found, r.found)
        (record {
          after = after;
          found = refl;
          nodes_kept =
              Keeps-push_set st.nodes r.after.nodes e _
                (Keeps-trans 0 _ l.after.nodes _ l.nodes_kept r.nodes_kept);
          blocks_kept = Keeps-trans 0 _ l.after.all_blocks _ l.blocks_kept r.blocks_kept;
          aligned = r.aligned;
          longer = rw length-set (omega (arith, push, second, last));
          tree =
              IsBuilt.branch _ (omega arith)
                (get_elem?-set r.after.nodes at _ (omega (arith, push, second, last))) (refl, refl)
                (omega (
                  arith,
                  root_entry references l_tree,
                  root_entry references r.tree,
                  count,
                  length-append ls rs,
                ))
                perm (refl, refl)
                (IsBuilt-Keeps references r.after.nodes after.nodes r.after.all_blocks
                  after.all_blocks left at (omega (arith, push)) moved same l_tree)
                (IsBuilt-Keeps references r.after.nodes after.nodes r.after.all_blocks
                  after.all_blocks right at (omega (arith, push, second))
                  (λ i a h. moved i a (omega (arith, push, second, h))) same r.tree);
        })

  twice : (bound depth : ℕ) → bound * 2 ^ suc depth ≡ bound * 2 ^ depth + bound * 2 ^ depth
  twice bound depth =
      let e : 2 ^ suc depth ≡ 2 ^ depth + 2 ^ depth = omega arith in rw e (omega arith)

  -- Both halves have at most half of the references, rounded up.
  halves :
      (indices sorted : List ℕ) (bound : ℕ)
      → length sorted ≡ length indices
      → length indices ≤ bound + bound
      → (length (take (length sorted / 2) sorted) ≤ bound)
        × (length (drop (length sorted / 2) sorted) ≤ bound)
  halves indices sorted bound same h = (
    omega (arith, length-take (length sorted / 2) sorted),
    omega (arith, length-drop (length sorted / 2) sorted),
  )

  sorted_perm :
      (indices : List ℕ) → Perm (split_sorted sort references leaf_size strategy indices) indices
  unfolding split_sorted
  sorted_perm indices = permutes _ indices

  -- A depth at which the halves fit in a leaf is enough, and bounds the tree.
  pub build_node_lem :
      (depth : ℕ) (indices : List ℕ) (st : Building)
      → length indices ≤ leaf_size * 2 ^ depth
      → length st.all_blocks % lanes ≡ 0
      → Builds references st depth indices
          (build_node sort references leaf_size strategy (suc depth) indices st)
  unfolding build_node
  build_node_lem zero indices st h even = elim (Bool-cases (leb (length indices) leaf_size)) [
    | inl e ↦ rw (e, build_node) (build_leaf-Builds references indices _ st zero even)
    | inr e ↦ absurd (omega (arith, leb-false (length indices) leaf_size e))
  ]
  build_node_lem (suc depth) indices st h even =
      let sorted = split_sorted sort references leaf_size strategy indices in
      let ls = take (length sorted / 2) sorted in
      let rs = drop (length sorted / 2) sorted in
      let entry = empty_node (lower references indices) (upper references indices) in
      let pushed : Building = record st { nodes = st.nodes ++ (entry ∷ []) } in
      let perm = sorted_perm indices in
      let (small_l, small_r) =
        halves indices sorted (leaf_size * 2 ^ depth) (length-perm perm)
          (omega (arith, twice leaf_size depth)) in
      let l = build_node_lem depth ls pushed small_l even in
      let r = build_node_lem depth rs l.after small_r l.aligned in
      elim (Bool-cases (leb (length indices) leaf_size)) [
        | inl e ↦ rw (e, build_node) (build_leaf-Builds references indices _ st (suc depth) even)
        | inr e ↦
            rw (e, build_node)
              (join-Builds (suc depth) indices entry st depth ls rs
                (rw (take-drop (length sorted / 2) sorted) perm) l r)
      ]
