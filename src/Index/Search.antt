-- ===== src/Index/Search.antt =====
-- The search of a partition's tree: `search_node_iterative_fast` of src/index/mod.rs.
-- `stack_nodes`, `stack_bounds` and `stack_len` are one list of frames, its top first. One round of
-- the `loop` is `step`; the loop takes fuel, which it never runs out of where it exceeds the number
-- of nodes (Search/Nearest).
pub mod Trees
pub mod Nearest
pub mod Pending
use rinha_rust_tree.Prelude.{
  ℕ, zero, suc, ◌+◌, Bool, true, false, ◌&&◌, ◌||◌, List, [], ◌∷◌, Option, none, some, ltb,
  if◌then◌else◌, length, get_or,
}
use rinha_rust_tree.Prelude.Int.{ℤ, pos, ltb_ℤ}
use rinha_rust_tree.Index.Words.{as_usize}
use rinha_rust_tree.Index.Layout
use rinha_rust_tree.Index.Table.{QueryVector, SpecialistIndex}
use rinha_rust_tree.Index.Best.{Slot, kth_dist}
use rinha_rust_tree.Index.Scan.{lower_bound_box, scan_leaf_fast}
use rinha_rust_tree.Index.Defer.{Frame, PendingSubtrees, try_defer}

abbrev pub tree_stack_capacity : ℕ
tree_stack_capacity = 128

abbrev pub leb_ℤ : ℤ → ℤ → Bool
leb_ℤ a b = if ltb_ℤ b a then false else true

-- the variables of the loop; `pending` is the last argument of the function
pub record Search : Type 0 where
  pub current : Frame
  pub stack : List Frame
  pub best : List Slot
  pub pending : Option PendingSubtrees

pub data Step : Type 0 where
  more : Search → Step
  done : List Slot → Option PendingSubtrees → Step

-- The end of the loop's body: `break` on an empty stack, else its top.
unfoldable pub pop_frame : Search → Step
pop_frame s = elim s.stack [
  | [] ↦ done s.best s.pending
  | f ∷ rest ↦ more (record s { current = f; stack = rest })
]

abbrev pub child : SpecialistIndex → QueryVector → ℕ → Frame
child ix query node = record {
  node = node;
  bound =
      lower_bound_box query (Layout.node_min ix.nodes_base node)
        (Layout.node_max ix.nodes_base node);
}

-- The far child is pushed if it may matter and there is room; the near one is next if it may matter.
unfoldable pub descend : Search → Frame → Frame → Step
unfolding pop_frame
descend s near far =
    let room = leb_ℤ far.bound (kth_dist s.best) && ltb (length s.stack) tree_stack_capacity in
    let s' = if room then record s { stack = far ∷ s.stack } else s in
    if leb_ℤ near.bound (kth_dist s.best) then more (record s' { current = near }) else pop_frame s'

unfoldable pub branch : Search → Frame → Frame → Step
unfolding descend
branch s l r = if leb_ℤ l.bound r.bound then descend s l r else descend s r l

unfoldable pub visit : SpecialistIndex → QueryVector → Search → Step
unfolding branch pop_frame
visit ix query s =
    let left = Layout.node_left ix.nodes_base s.current.node in
    let right = Layout.node_right ix.nodes_base s.current.node in
    if ltb_ℤ left (pos 0) || ltb_ℤ right (pos 0)
    then pop_frame (record s { best = scan_leaf_fast ix s.current.node query s.best })
    else branch s (child ix query (as_usize left)) (child ix query (as_usize right))

-- `try_defer`, where there are pending subtrees
unfoldable pub defer_current : SpecialistIndex → Search → Option PendingSubtrees × Bool
defer_current ix s = elim s.pending [
  | none ↦ (none, false)
  | some p ↦
      let (p', deferred) =
        try_defer p s.current.node s.current.bound s.best
          (get_or ix.node_class_bits s.current.node 0) in
      (some p', deferred)
]

-- The body behind `try_defer`: a node that was put off is left.
unfoldable pub after_defer :
    SpecialistIndex → QueryVector → Search → Option PendingSubtrees × Bool → Step
after_defer ix query s (pending, deferred) =
    let s' = record s { pending = pending } in if deferred then pop_frame s' else visit ix query s'

unfoldable pub step : SpecialistIndex → QueryVector → Search → Step
step ix query s =
    if leb_ℤ s.current.bound (kth_dist s.best)
    then after_defer ix query s (defer_current ix s)
    else pop_frame s

-- `none` is no answer of the code: the fuel ran out.
unfoldable pub search_loop :
    ℕ → SpecialistIndex → QueryVector → Search → Option (List Slot × Option PendingSubtrees)
unfolding step after_defer defer_current visit
search_loop zero ix query s = none
search_loop (suc fuel) ix query s = elim (step ix query s) [
  | more s' ↦ search_loop fuel ix query s'
  | done best pending ↦ some (best, pending)
]

unfoldable pub search_node_iterative_fast :
    ℕ
    → SpecialistIndex
    → Frame
    → QueryVector
    → List Slot
    → Option PendingSubtrees
    → Option (List Slot × Option PendingSubtrees)
unfolding search_loop
search_node_iterative_fast fuel ix root query best pending =
    search_loop fuel ix query
      (record { current = root; stack = []; best = best; pending = pending })
