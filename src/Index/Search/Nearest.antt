-- ===== src/Index/Search/Nearest.antt =====
-- The search of a tree, with its pruning, finds K nearest vectors of the whole tree.
use mathlib.Core.List.{Perm, append-nil, append_assoc}
use mathlib.Core.List.Perm
use rinha_rust_tree.Prelude.{
  ℕ, zero, suc, ◌+◌, ◌≤◌, max, ◌≡◌, refl, inl, inr, Bool, true, false, ◌||◌, Option, none, some,
  List, [], ◌∷◌, ◌++◌, arith, ltb, Bool-cases, length, All, All-append,
}
use rinha_rust_tree.Prelude.Perms.{perm_left_comm}
use rinha_rust_tree.Prelude.Int.{ℤ, pos, ◌≤ℤ◌, ◌<ℤ◌, ltb_ℤ}
use rinha_rust_tree.Index.Layout
use rinha_rust_tree.Index.Table.{QueryVector, SpecialistIndex}
use rinha_rust_tree.Index.Best.{Slot, slot_at, kth_dist}
use rinha_rust_tree.Index.Best.Nearest.{Past, Past-lt, IsNearest, skipped-IsNearest, IsNearest-perm}
use rinha_rust_tree.Index.Scan.{scan_leaf_fast}
use rinha_rust_tree.Index.Scan.Leaf.{
  Place, leaf_places, slot_at_place, slots_at, slots_at-ge, i32_min, regroup-perm,
  scan_leaf_fast-IsNearest,
}
use rinha_rust_tree.Index.Defer.{Frame, PendingSubtrees, try_defer}
use rinha_rust_tree.Index.Search.{
  Search, Step, more, done, tree_stack_capacity, child, leb_ℤ, pop_frame, descend, branch, visit,
  step, after_defer, defer_current, search_loop, search_node_iterative_fast,
}
use rinha_rust_tree.Index.Search.Trees.{Tree, Frames, Tree-size_pos}

abbrev Outcome : Type 0
Outcome = Option (List Slot × Option PendingSubtrees)

-- Deferral changes nothing: there is no `PendingSubtrees`, or it is not enabled.
abbrev pub Inert : Option PendingSubtrees → Type 0
Inert none = Unit
Inert (some p) = p.enabled ≡ false

pub defer_current-Inert :
    (ix : SpecialistIndex) (s : Search) → Inert s.pending → defer_current ix s ≡ (s.pending, false)
unfolding defer_current try_defer
defer_current-Inert ix s h = ground arith

module _ (ix : SpecialistIndex) (query : QueryVector) (exact : Bool)
    (pending : Option PendingSubtrees) where
  -- The run ends, and its slots are K nearest of the pool and the vectors at `ps`.
  abbrev pub Finds : Outcome → List Place → List Slot → Type 0
  Finds r ps pool =
      (best : List Slot) × (r ≡ some (best, pending))
      × IsNearest exact best (slots_at ix query ps ++ pool)

  abbrev pub Bounded : ℤ → List Place → Type 0
  Bounded bound ps = All (λ p. bound ≤ℤ (slot_at_place ix query p).dist) ps

  abbrev pub Below : List Slot → Type 0
  Below pool = All (λ s. i32_min ≤ℤ s.dist) pool

  abbrev resume : ℕ → Step → Outcome
  resume fuel st = elim st [ more s' ↦ search_loop fuel ix query s' | done best p ↦ some (best, p) ]

  abbrev state : Frame → List Frame → List Slot → Search
  state f stack best = record { current = f; stack = stack; best = best; pending = pending }

  Finds-perm :
      {r : Outcome} {ps qs : List Place} (pool : List Slot)
      → Perm ps qs
      → Finds r ps pool
      → Finds r qs pool
  Finds-perm pool p (best, e, v) = (
    best,
    e,
    IsNearest-perm exact (Perm.append_right pool (Perm.map (slot_at_place ix query) p)) v,
  )

  -- Places that were dealt with before stand in front.
  Finds-before :
      {r : Outcome} (ps qs : List Place) (pool : List Slot)
      → Finds r qs (slots_at ix query ps ++ pool)
      → Finds r (ps ++ qs) pool
  Finds-before ps qs pool (best, e, v) =
      (best, e, IsNearest-perm exact (regroup-perm ix query ps qs pool) v)

  Bounded-Past :
      (best : List Slot) (bound : ℤ) (ps : List Place)
      → kth_dist best <ℤ bound
      → Bounded bound ps
      → All (Past exact (slot_at best 4)) (slots_at ix query ps)
  Bounded-Past best bound [] h b = tt
  Bounded-Past best bound (p ∷ ps) h b =
      (Past-lt exact _ _ (omega (arith, b.0)), Bounded-Past best bound ps h b.1)

  -- A subtree whose bound is past the last slot need not be searched.
  Finds-skip :
      {r : Outcome} {best pool : List Slot} (bound : ℤ) (ps qs : List Place)
      → leb_ℤ bound (kth_dist best) ≡ false
      → Bounded bound ps
      → IsNearest exact best pool
      → Below pool
      → (IsNearest exact best (slots_at ix query ps ++ pool)
          → Below (slots_at ix query ps ++ pool)
          → Finds r qs (slots_at ix query ps ++ pool))
      → Finds r (ps ++ qs) pool
  Finds-skip {best} {pool} bound ps qs e b v lo go = Finds-before ps qs pool (
      go
        (skipped-IsNearest exact (slots_at ix query ps) v
          (Bounded-Past best bound ps (ground arith) b))
        (All-append _ (slots_at ix query ps) pool (slots_at-ge ix query ps) lo))

  -- The claim about the loop with `fuel` rounds, from a current node and a stack.
  abbrev Loop : ℕ → Type 0
  Loop fuel =
      (node : ℕ) (bound : ℤ) (stack : List Frame) (ps qs : List Place) (m n d : ℕ)
      (best pool : List Slot)
      → Tree ix query node ps m d
      → Bounded bound ps
      → length stack + d ≤ tree_stack_capacity
      → Frames ix query stack qs n
      → m + n ≤ fuel
      → IsNearest exact best pool
      → Below pool
      → Finds (search_loop fuel ix query (state (record { node = node; bound = bound }) stack best))
          (ps ++ qs) pool

  pop-Finds :
      (fuel : ℕ) (f : Frame) {stack : List Frame} {qs : List Place} {n : ℕ} (best pool : List Slot)
      → Loop fuel
      → Frames ix query stack qs n
      → n ≤ fuel
      → IsNearest exact best pool
      → Below pool
      → Finds (resume fuel (pop_frame (state f stack best))) qs pool
  unfolding pop_frame
  pop-Finds fuel f best pool ih Frames.empty h v lo = (best, refl, v)
  pop-Finds fuel f best pool ih (Frames.push node bound {stack} {ps} {qs} {m} {n} {d} t b room fs) h
        v lo =
      ih node bound stack ps qs m n d best pool t b room fs h v lo

  module _ (fuel : ℕ) (ih : Loop fuel) (s : Frame) (stack : List Frame) (best pool : List Slot)
      {rs : List Place} {k : ℕ} (fs : Frames ix query stack rs k) (v : IsNearest exact best pool)
      (lo : Below pool) where
    -- Two subtrees to go, the nearer first: each is searched, pushed or skipped.
    descend-Finds :
        (a b : ℕ) (ab bb : ℤ) (ps qs : List Place) (m n d e : ℕ)
        → Tree ix query a ps m d
        → Tree ix query b qs n e
        → Bounded ab ps
        → Bounded bb qs
        → length stack + suc d ≤ tree_stack_capacity
        → length stack + suc e ≤ tree_stack_capacity
        → m + n + k ≤ fuel
        → Finds
            (resume fuel (
              descend
                (state s stack best)
                (record { node = a; bound = ab })
                (record { node = b; bound = bb })))
            (ps ++ (qs ++ rs))
            pool
    unfolding descend
    descend-Finds a b ab bb ps qs m n d e t u p q hd he h =
        elim (Bool-cases (leb_ℤ bb (kth_dist best))) [
          | inl far ↦
              let room : ltb (length stack) tree_stack_capacity ≡ true = ground arith in
              let fs' = Frames.push b bb u q (omega arith) fs in
              elim (Bool-cases (leb_ℤ ab (kth_dist best))) [
                | inl near ↦
                    rw (far, room, near)
                      (ih a ab (record { node = b; bound = bb } ∷ stack) ps (qs ++ rs) m (n + k) d
                        best pool t p (omega arith) fs' (omega arith) v lo)
                | inr near ↦
                    rw (far, room, near)
                      (Finds-skip ab ps (qs ++ rs) near p v lo
                        λ v' lo'. pop-Finds fuel s best _ ih fs' (omega arith) v' lo')
              ]
          | inr far ↦ elim (Bool-cases (leb_ℤ ab (kth_dist best))) [
            | inl near ↦
                rw (far, near)
                  (Finds-perm pool (perm_left_comm qs ps rs) (
                    Finds-skip bb qs (ps ++ rs) far q v lo λ v' lo'.
                      ih a ab stack ps rs m k d best (slots_at ix query qs ++ pool) t p
                        (omega arith) fs (omega arith) v' lo'))
            | inr near ↦
                rw (far, near)
                  (Finds-skip ab ps (qs ++ rs) near p v lo λ v' lo'.
                    Finds-skip bb qs rs far q v' lo'
                      λ v'' lo''. pop-Finds fuel s best _ ih fs (omega arith) v'' lo'')
          ]
        ]

    branch-Finds :
        (l r : ℕ) (ps qs : List Place) (m n d e : ℕ)
        → Tree ix query l ps m d
        → Tree ix query r qs n e
        → Bounded (child ix query l).bound ps
        → Bounded (child ix query r).bound qs
        → length stack + suc (max d e) ≤ tree_stack_capacity
        → m + n + k ≤ fuel
        → Finds
            (resume fuel (branch (state s stack best) (child ix query l) (child ix query r)))
            ((ps ++ qs) ++ rs)
            pool
    unfolding branch
    branch-Finds l r ps qs m n d e t u p q room h =
        elim (Bool-cases (leb_ℤ (child ix query l).bound (child ix query r).bound)) [
          | inl e' ↦
              rw (e', append_assoc ps qs rs)
                (descend-Finds l r _ _ ps qs m n d e t u p q (omega arith) (omega arith) h)
          | inr e' ↦
              rw (e', append_assoc ps qs rs)
                (Finds-perm pool (perm_left_comm qs ps rs) (
                  descend-Finds r l _ _ qs ps n m e d u t q p (omega arith) (omega arith)
                    (omega arith)))
        ]

  visit-Finds :
      (fuel : ℕ) (ih : Loop fuel) (node : ℕ) (bound : ℤ) (stack : List Frame)
      (best pool : List Slot) {ps rs : List Place} {m k d : ℕ}
      → Tree ix query node ps m d
      → length stack + d ≤ tree_stack_capacity
      → Frames ix query stack rs k
      → m + k ≤ suc fuel
      → IsNearest exact best pool
      → Below pool
      → Finds
          (resume fuel (visit ix query (state (record { node = node; bound = bound }) stack best)))
          (ps ++ rs)
          pool
  unfolding visit
  visit-Finds fuel ih node bound stack best pool {rs} (Tree.leaf _ l stored) room fs h v lo =
      let leaf : (ltb_ℤ (Layout.node_left ix.nodes_base node) (pos 0)
            || ltb_ℤ (Layout.node_right ix.nodes_base node) (pos 0))
          ≡ true =
        ground arith in
      let here = leaf_places ix node in
      rw leaf (
        Finds-before here rs pool (
          pop-Finds fuel (record { node = node; bound = bound }) (scan_leaf_fast ix node query best)
            (slots_at ix query here ++ pool) ih fs (omega arith)
            (scan_leaf_fast-IsNearest ix query exact node v lo)
            (All-append _ (slots_at ix query here) pool (slots_at-ge ix query here) lo)))
  visit-Finds fuel ih node bound stack best pool
        (Tree.branch _ l r {ps} {qs} {m} {n} {d} {e} hl hr el er t u p q) room fs h v lo =
      rw (hl, hr, el, er)
        (branch-Finds fuel ih (record { node = node; bound = bound }) stack best pool fs v lo l r ps
          qs m n d e t u p q room (omega arith))

  step-Finds :
      Inert pending
      → (fuel : ℕ) (ih : Loop fuel) (node : ℕ) (bound : ℤ) (stack : List Frame)
        (best pool : List Slot) {ps rs : List Place} {m k d : ℕ}
      → Tree ix query node ps m d
      → Bounded bound ps
      → length stack + d ≤ tree_stack_capacity
      → Frames ix query stack rs k
      → m + k ≤ suc fuel
      → IsNearest exact best pool
      → Below pool
      → Finds
          (resume fuel (step ix query (state (record { node = node; bound = bound }) stack best)))
          (ps ++ rs)
          pool
  unfolding step
  step-Finds inert fuel ih node bound stack best pool {ps} {rs} t b room fs h v lo =
      elim (Bool-cases (leb_ℤ bound (kth_dist best))) [
        | inl near ↦
            let s = state (record { node = node; bound = bound }) stack best in
            rw (near, defer_current-Inert ix s inert)
              (unfold after_defer in
                visit-Finds fuel ih node bound stack best pool t room fs h v lo)
        | inr far ↦ rw far (
            Finds-skip bound ps rs far b v lo λ v' lo'.
              pop-Finds fuel (record { node = node; bound = bound }) best _ ih fs
                (omega (arith, Tree-size_pos t)) v' lo')
      ]

  search_loop_lem : Inert pending → (fuel : ℕ) → Loop fuel
  unfolding search_loop
  search_loop_lem inert zero node bound stack ps qs m n d best pool t b room fs h v lo =
      absurd (omega (arith, Tree-size_pos t))
  search_loop_lem inert (suc fuel) node bound stack ps qs m n d best pool t b room fs h v lo =
      step-Finds inert fuel (search_loop_lem inert fuel) node bound stack best pool t b room fs h v
        lo

-- A search without deferral, from the root of a tree that is in the file and not too deep, with fuel
-- for its nodes, ends, and its slots are K nearest among the old ones and all vectors of the tree, if
-- for the query the bound of every node is at most the distance of each vector below it, as 32 bits
-- hold it.
pub search_node_iterative_fast-IsNearest :
    (ix : SpecialistIndex) (query : QueryVector) (exact : Bool) (pending : Option PendingSubtrees)
    (fuel node : ℕ) (bound : ℤ) {ps : List Place} {m d : ℕ} {best pool : List Slot}
    → Inert pending
    → Tree ix query node ps m d
    → All (λ p. bound ≤ℤ (slot_at_place ix query p).dist) ps
    → d ≤ tree_stack_capacity
    → m ≤ fuel
    → IsNearest exact best pool
    → All (λ s. i32_min ≤ℤ s.dist) pool
    → Finds ix query exact pending
        (search_node_iterative_fast fuel ix
          (record { node = node; bound = bound })
          query
          best
          pending)
        ps
        pool
unfolding search_node_iterative_fast
search_node_iterative_fast-IsNearest ix query exact pending fuel node bound {ps} {m} {d} {best}
      {pool} inert t b room h v lo =
    rw append-nil at (
      search_loop_lem ix query exact pending inert fuel node bound [] ps [] m 0 d best pool t b
        (omega arith) Frames.empty (omega arith) v lo)
