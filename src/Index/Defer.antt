-- ===== src/Index/Defer.antt =====
-- `PendingSubtrees` of src/index/search.rs: subtrees whose labels cannot change the answer are put
-- off, and searched later if they can.
use rinha_rust_tree.Prelude.{
  ℕ, suc, zero, ◌/◌, ◌%◌, Bool, true, false, ◌&&◌, ◌||◌, not, List, [], ◌∷◌, Option, none, some,
  ltb, leb, ◌==◌, if◌then◌else◌, length,
}
use rinha_rust_tree.Prelude.Int.{ℤ, eqb_ℤ}
use rinha_rust_tree.Index.Best.{Slot, k, i64_max, kth_dist, label_sum}

-- a subtree's root and the lower bound of its distances
pub record Frame : Type 0 where
  pub node : ℕ
  pub bound : ℤ

abbrev pub defer_stack_capacity : ℕ
defer_stack_capacity = 4096

-- `roots`, `bounds` and `len` are one stack, its top first.
pub record PendingSubtrees : Type 0 where
  pub enabled : Bool
  pub label : Option ℕ
  pub stack : List Frame

abbrev pub new_pending : Bool → PendingSubtrees
new_pending enabled = record { enabled = enabled; label = none; stack = [] }

unfoldable pub consensus_label : List Slot → Option ℕ
consensus_label best =
    if eqb_ℤ (kth_dist best) i64_max
    then none
    else if label_sum best == 0
    then some 0
    else if label_sum best == k
    then some 1
    else none

abbrev pub same_label : Option ℕ → Option ℕ → Bool
same_label none none = true
same_label (some a) (some b) = a == b
same_label _ _ = false

-- `node_class_bits & (1 << (1 - label)) != 0` for the labels 0 and 1: bit 1, and bit 0.
abbrev pub has_other : ℕ → ℕ → Bool
has_other class_bits zero = class_bits / 2 % 2 == 1
has_other class_bits (suc _) = class_bits % 2 == 1

abbrev get_or_insert : Option ℕ → ℕ → Option ℕ
get_or_insert none label = some label
get_or_insert (some l) label = some l

-- once there is a consensus; the result says whether the node was put off
unfoldable pub defer_with : PendingSubtrees → ℕ → ℤ → ℕ → ℕ → PendingSubtrees × Bool
defer_with p node bound label class_bits =
    if class_bits == 0 || has_other class_bits label
    then (p, false)
    else let p' = record p { label = get_or_insert p.label label } in
      if not (same_label p'.label (some label))
      then (p', false)
      else (record p' { stack = record { node = node; bound = bound } ∷ p.stack }, true)

unfoldable pub try_defer : PendingSubtrees → ℕ → ℤ → List Slot → ℕ → PendingSubtrees × Bool
unfolding defer_with consensus_label
try_defer p node bound best class_bits =
    if not p.enabled || leb defer_stack_capacity (length p.stack)
    then (p, false)
    else elim (consensus_label best) [
      | none ↦ (p, false)
      | some label ↦ defer_with p node bound label class_bits
    ]

unfoldable pub should_replay : PendingSubtrees → List Slot → Bool
unfolding consensus_label
should_replay p best = ltb 0 (length p.stack) && not (same_label (consensus_label best) p.label)

unfoldable pub pop : PendingSubtrees → PendingSubtrees × Option Frame
pop p = elim p.stack [
  | [] ↦ (record p { label = none }, none)
  | f ∷ rest ↦ (record p { stack = rest }, some f)
]
