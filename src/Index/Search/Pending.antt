-- ===== src/Index/Search/Pending.antt =====
-- A search of src/index/mod.rs that is given subtrees to put off, but must put nothing off, is the
-- search without them.
use rinha_rust_tree.Prelude.{
  ℕ, zero, suc, ◌≡◌, refl, ◌||◌, Option, none, some, List, arith, inl, inr, Bool-cases, ap, ◌∙◌,
  sym, [],
}
use rinha_rust_tree.Prelude.Int.{pos, ltb_ℤ}
use rinha_rust_tree.Index.Words.{as_usize}
use rinha_rust_tree.Index.Layout
use rinha_rust_tree.Index.Table.{QueryVector, SpecialistIndex}
use rinha_rust_tree.Index.Best.{Slot, kth_dist}
use rinha_rust_tree.Index.Scan.{scan_leaf_fast}
use rinha_rust_tree.Index.Defer.{Frame, PendingSubtrees}
use rinha_rust_tree.Index.Search.{
  Search, Step, more, done, child, leb_ℤ, pop_frame, descend, branch, visit, step, after_defer,
  search_loop, search_node_iterative_fast,
}
use rinha_rust_tree.Index.Search.Nearest.{Inert, defer_current-Inert}

abbrev Outcome : Type 0
Outcome = Option (List Slot × Option PendingSubtrees)

module _ (q : Option PendingSubtrees) where
  abbrev put : Search → Search
  put s = record s { pending = q }

  abbrev put_step : Step → Step
  put_step (more s) = more (put s)
  put_step (done best p) = done best q

  abbrev pub put_outcome : Outcome → Outcome
  put_outcome none = none
  put_outcome (some (best, p)) = some (best, q)

  pop_frame-put : (s : Search) → pop_frame (put s) ≡ put_step (pop_frame s)
  unfolding pop_frame
  pop_frame-put s = ground arith

  descend-put :
      (s : Search) (near far : Frame) → descend (put s) near far ≡ put_step (descend s near far)
  unfolding descend pop_frame
  descend-put s near far = ground arith

  branch-put : (s : Search) (l r : Frame) → branch (put s) l r ≡ put_step (branch s l r)
  unfolding branch
  branch-put s l r = ground (arith, descend-put s l r, descend-put s r l)

  module _ (ix : SpecialistIndex) (query : QueryVector) where
    visit-put : (s : Search) → visit ix query (put s) ≡ put_step (visit ix query s)
    unfolding visit
    visit-put s =
        let left = Layout.node_left ix.nodes_base s.current.node in
        let right = Layout.node_right ix.nodes_base s.current.node in
        elim (Bool-cases (ltb_ℤ left (pos 0) || ltb_ℤ right (pos 0))) [
          | inl leaf ↦
              rw leaf
                (pop_frame-put (record s { best = scan_leaf_fast ix s.current.node query s.best }))
          | inr inner ↦
              rw inner
                (branch-put s (child ix query (as_usize left)) (child ix query (as_usize right)))
        ]

    step-put :
        Inert q
        → (s : Search) → s.pending ≡ none
        → step ix query (put s) ≡ put_step (step ix query s)
    unfolding step
    step-put inert s e = elim (Bool-cases (leb_ℤ s.current.bound (kth_dist s.best))) [
      | inl near ↦
          rw (near, defer_current-Inert ix (put s) inert, defer_current-Inert ix s (rw e tt))
            (unfold after_defer in visit-put s)
      | inr far ↦ rw far (pop_frame-put s)
    ]

module _ (fuel : ℕ) (ix : SpecialistIndex) (query : QueryVector) where
  abbrev resume : Step → Outcome
  resume st = elim st [ more s ↦ search_loop fuel ix query s | done best p ↦ some (best, p) ]

  resume-put :
      (q : Option PendingSubtrees)
      → ((s : Search)
          → search_loop fuel ix query (put q s)
            ≡ put_outcome q (search_loop fuel ix query (put none s)))
      → (st : Step) → resume (put_step q st) ≡ put_outcome q (resume (put_step none st))
  resume-put q ih (more s) = ih s
  resume-put q ih (done best p) = refl

search_loop-put :
    (q : Option PendingSubtrees)
    → Inert q
    → (fuel : ℕ) (ix : SpecialistIndex) (query : QueryVector) (s : Search)
    → search_loop fuel ix query (put q s) ≡ put_outcome q (search_loop fuel ix query (put none s))
unfolding search_loop
search_loop-put q inert zero ix query s = refl
search_loop-put q inert (suc fuel) ix query s =
    let st = step ix query (put none s) in
    let left = ap (resume fuel ix query) (step-put q ix query inert (put none s) refl) in
    let middle = resume-put fuel ix query q (λ s'. search_loop-put q inert fuel ix query s') st in
    let right =
      ap (λ st'. put_outcome q (resume fuel ix query st'))
        (step-put none ix query tt (put none s) refl) in
    left ∙ middle ∙ sym right

-- Pending subtrees that are not enabled come back as they were, with the slots of the search that
-- is given none.
pub search_node_iterative_fast-put :
    (q : Option PendingSubtrees) (fuel : ℕ) (ix : SpecialistIndex) (root : Frame)
    (query : QueryVector) (best : List Slot)
    → Inert q
    → search_node_iterative_fast fuel ix root query best q
      ≡ put_outcome q (search_node_iterative_fast fuel ix root query best none)
unfolding search_node_iterative_fast
search_node_iterative_fast-put q fuel ix root query best inert =
    search_loop-put q inert fuel ix query
      (record { current = root; stack = []; best = best; pending = none })
