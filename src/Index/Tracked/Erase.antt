-- ===== src/Index/Tracked/Erase.antt =====
-- The search of a tree that keeps statistics and partition keys makes the same slots as the fast one
-- of src/index/mod.rs where that puts nothing off.
use rinha_rust_tree.Prelude.{
  ℕ, zero, suc, ◌+◌, ◌-◌, ◌*◌, ◌/◌, ◌∙◌, min, ◌≡◌, refl, Bool, true, false, ◌||◌, List, Option,
  none, some, if◌then◌else◌, inl, inr, Bool-cases, arith, ap,
}
use rinha_rust_tree.Prelude.Int.{ℤ, pos, ltb_ℤ}
use rinha_rust_tree.Index.Words.{as_usize}
use rinha_rust_tree.Index.Layout
use rinha_rust_tree.Index.Table.{QueryVector, SpecialistIndex}
use rinha_rust_tree.Index.Best.{Slot, kth_dist, Tracked, insert_best, insert_best_fast}
use rinha_rust_tree.Index.Best.Nearest.{insert_best-insert_best_fast}
use rinha_rust_tree.Index.Scan.{lanes, lane_bit, slot_of, scan_lanes, scan_blocks, scan_leaf_fast}
use rinha_rust_tree.Index.Defer.{Frame, PendingSubtrees}
use rinha_rust_tree.Index.Search.{
  Search, Step, leb_ℤ, child, pop_frame, descend, branch, visit, step, after_defer, defer_current,
  search_loop, search_node_iterative_fast,
}
use rinha_rust_tree.Index.Tracked.{
  Tally, TrackedSearch, TrackedStep, scan_tracked_lanes, scan_tracked_blocks, scan_leaf,
  pop_tracked, descend_tracked, branch_tracked, visit_tracked, step_tracked, tracked_loop,
  search_node_iterative, kth,
}

if_best :
    (b : Bool) {best : List Slot} (t u : Tracked)
    → u.best ≡ best
    → (if b then u else t).best ≡ (if b then best else t.best)
if_best true t u e = e
if_best false t u e = refl

module _ (ix : SpecialistIndex) (query : QueryVector) (key : ℕ) where
  scan_tracked_lanes-best :
      (n i block : ℕ) (limit : ℤ) (t : Tracked)
      → (scan_tracked_lanes n i ix query key block limit t).best
        ≡ scan_lanes n i ix query block limit t.best
  unfolding scan_tracked_lanes scan_lanes
  scan_tracked_lanes-best zero i block limit t = refl
  scan_tracked_lanes-best (suc n) i block limit t =
      let s = slot_of ix query block i in
      let next = if lane_bit limit s.dist then insert_best s key t else t in
      let same : next.best ≡ (if lane_bit limit s.dist then insert_best_fast s t.best else t.best) =
        if_best (lane_bit limit s.dist) t (insert_best s key t)
          (insert_best-insert_best_fast s key t) in
      scan_tracked_lanes-best n (i + 1) block limit next
      ∙ ap (λ best. scan_lanes n (i + 1) ix query block limit best) same

  scan_tracked_blocks-best :
      (n b start len : ℕ) (t : Tracked)
      → (scan_tracked_blocks n b ix query key start len t).best
        ≡ scan_blocks n b ix query start len t.best
  unfolding scan_tracked_blocks scan_blocks
  scan_tracked_blocks-best zero b start len t = refl
  scan_tracked_blocks-best (suc n) b start len t =
      let lanes_left = min (len - b * lanes) lanes in
      let t' = scan_tracked_lanes lanes_left 0 ix query key (start + b) (kth_dist t.best) t in
      rw (
        scan_tracked_blocks-best n (b + 1) start len t',
        scan_tracked_lanes-best lanes_left 0 (start + b) (kth_dist t.best) t,
      )

  scan_leaf-best :
      (node : ℕ) (t : Tally)
      → (scan_leaf ix node query key t).tracked.best ≡ scan_leaf_fast ix node query t.tracked.best
  unfolding scan_leaf scan_leaf_fast
  scan_leaf-best node t =
      let len = Layout.node_len ix.nodes_base node in
      scan_tracked_blocks-best ((len + lanes - 1) / lanes) 0 (Layout.node_start ix.nodes_base node)
        len t.tracked

-- what is left without the statistics and the keys
abbrev pub erase : TrackedSearch → Search
erase s = record {
  current = s.current;
  stack = s.stack;
  best = s.tally.tracked.best;
  pending = none;
}

abbrev erase_step : TrackedStep → Step
erase_step (TrackedStep.more s) = Step.more (erase s)
erase_step (TrackedStep.done t) = Step.done t.tracked.best none

pop_tracked-erase : (s : TrackedSearch) → erase_step (pop_tracked s) ≡ pop_frame (erase s)
unfolding pop_tracked pop_frame
pop_tracked-erase s = ground arith

descend_tracked-erase :
    (s : TrackedSearch) (near far : Frame)
    → erase_step (descend_tracked s near far) ≡ descend (erase s) near far
unfolding descend_tracked descend pop_tracked pop_frame
descend_tracked-erase s near far = ground arith

branch_tracked-erase :
    (s : TrackedSearch) (l r : Frame) → erase_step (branch_tracked s l r) ≡ branch (erase s) l r
unfolding branch_tracked branch
branch_tracked-erase s l r =
    ground (arith, descend_tracked-erase s l r, descend_tracked-erase s r l)

visit_tracked-erase :
    (ix : SpecialistIndex) (query : QueryVector) (key : ℕ) (s : TrackedSearch)
    → erase_step (visit_tracked ix query key s) ≡ visit ix query (erase s)
unfolding visit_tracked visit
visit_tracked-erase ix query key s =
    let left = Layout.node_left ix.nodes_base s.current.node in
    let right = Layout.node_right ix.nodes_base s.current.node in
    let scanned = record s { tally = scan_leaf ix s.current.node query key s.tally } in
    elim (Bool-cases (ltb_ℤ left (pos 0) || ltb_ℤ right (pos 0))) [
      | inl leaf ↦
          rw (leaf, ← scan_leaf-best ix query key s.current.node s.tally)
            (pop_tracked-erase scanned)
      | inr inner ↦ rw inner (
          branch_tracked-erase s (child ix query (as_usize left)) (child ix query (as_usize right)))
    ]

step_tracked-erase :
    (ix : SpecialistIndex) (query : QueryVector) (key : ℕ) (s : TrackedSearch)
    → erase_step (step_tracked ix query key s) ≡ step ix query (erase s)
unfolding step_tracked step defer_current after_defer
step_tracked-erase ix query key s = elim (Bool-cases (leb_ℤ s.current.bound (kth s))) [
  | inl near ↦ rw near (visit_tracked-erase ix query key _)
  | inr far ↦ rw far (pop_tracked-erase s)
]

abbrev pub erase_tally : Option Tally → Option (List Slot × Option PendingSubtrees)
erase_tally none = none
erase_tally (some t) = some (t.tracked.best, none)

module _ (fuel : ℕ) (ix : SpecialistIndex) (query : QueryVector) (key : ℕ) where
  abbrev resume_tracked : TrackedStep → Option Tally
  resume_tracked st = elim st [
    | TrackedStep.more s ↦ tracked_loop fuel ix query key s
    | TrackedStep.done t ↦ some t
  ]

  abbrev resume : Step → Option (List Slot × Option PendingSubtrees)
  resume st = elim st [
    | Step.more s ↦ search_loop fuel ix query s
    | Step.done best p ↦ some (best, p)
  ]

  resume-erase :
      ((s : TrackedSearch)
        → erase_tally (tracked_loop fuel ix query key s) ≡ search_loop fuel ix query (erase s))
      → (st : TrackedStep) → erase_tally (resume_tracked st) ≡ resume (erase_step st)
  resume-erase ih (TrackedStep.more s) = ih s
  resume-erase ih (TrackedStep.done t) = refl

tracked_loop-erase :
    (fuel : ℕ) (ix : SpecialistIndex) (query : QueryVector) (key : ℕ) (s : TrackedSearch)
    → erase_tally (tracked_loop fuel ix query key s) ≡ search_loop fuel ix query (erase s)
unfolding tracked_loop search_loop
tracked_loop-erase zero ix query key s = refl
tracked_loop-erase (suc fuel) ix query key s =
    resume-erase fuel ix query key (λ s'. tracked_loop-erase fuel ix query key s')
      (step_tracked ix query key s)
    ∙ ap (resume fuel ix query key) (step_tracked-erase ix query key s)

-- `search_node_iterative` ends exactly when `search_node_iterative_fast` does that puts nothing off,
-- with the same slots.
pub search_node_iterative-erase :
    (fuel : ℕ) (ix : SpecialistIndex) (root : Frame) (query : QueryVector) (key : ℕ) (t : Tally)
    → erase_tally (search_node_iterative fuel ix root query key t)
      ≡ search_node_iterative_fast fuel ix root query t.tracked.best none
unfolding search_node_iterative search_node_iterative_fast
search_node_iterative-erase fuel ix root query key t = tracked_loop-erase fuel ix query key _
