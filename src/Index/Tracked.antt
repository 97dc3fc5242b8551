-- ===== src/Index/Tracked.antt =====
-- The search of a tree in src/index/mod.rs that keeps statistics and the partition of each candidate:
-- `search_node_iterative` and `scan_leaf`. It puts no subtree off.
pub mod Erase
pub mod Predict
pub mod Same
pub mod Keys
pub mod Restricted
use rinha_rust_tree.Prelude.{
  ℕ, zero, suc, ◌+◌, ◌-◌, ◌*◌, ◌/◌, ◌%◌, ◌^◌, min, Bool, true, false, ◌&&◌, ◌||◌, List, [], ◌∷◌,
  Option, none, some, ltb, ◌==◌, if◌then◌else◌, length, get_or, replicate,
}
use rinha_rust_tree.Prelude.Int.{ℤ, pos, negsuc, ltb_ℤ}
use rinha_rust_tree.Index.Words.{as_usize}
use rinha_rust_tree.Index.Layout
use rinha_rust_tree.Index.Table.{QueryVector, SpecialistIndex}
use rinha_rust_tree.Index.Best.{
  Slot, k, kth_dist, no_best, u32_max, label_sum, Tracked, insert_best,
}
use rinha_rust_tree.Index.Scan.{lanes, lane_bit, slot_of}
use rinha_rust_tree.Index.Defer.{Frame}
use rinha_rust_tree.Index.Search.{tree_stack_capacity, leb_ℤ, child}

pub record SearchStats : Type 0 where
  pub partitions_visited : ℕ
  pub secondary_partitions : ℕ
  pub nodes_visited : ℕ
  pub leaves_scanned : ℕ
  pub blocks_scanned : ℕ

-- What a search writes: the slots with their partition keys, and the statistics.
pub record Tally : Type 0 where
  pub tracked : Tracked
  pub stats : Option SearchStats

-- `+=` on a u32
abbrev plus : ℕ → ℕ → ℕ
plus a b = (a + b) % 2 ^ 32

-- `if let Some(s) = stats.as_deref_mut()`
abbrev count : (SearchStats → SearchStats) → Tally → Tally
count f t = record t { stats = elim t.stats [ none ↦ none | some s ↦ some (f s) ] }

abbrev partition_visited : SearchStats → SearchStats
partition_visited s = record s { partitions_visited = plus s.partitions_visited 1 }

abbrev secondary_visited : SearchStats → SearchStats
secondary_visited s = record s { secondary_partitions = plus s.secondary_partitions 1 }

abbrev node_visited : SearchStats → SearchStats
node_visited s = record s { nodes_visited = plus s.nodes_visited 1 }

abbrev leaf_scanned : ℕ → SearchStats → SearchStats
leaf_scanned blocks s = record s {
  leaves_scanned = plus s.leaves_scanned 1;
  blocks_scanned = plus s.blocks_scanned (blocks % 2 ^ 32);
}

-- `while mask != 0`, as in `scan_leaf_fast`
unfoldable pub scan_tracked_lanes :
    ℕ → ℕ → SpecialistIndex → QueryVector → ℕ → ℕ → ℤ → Tracked → Tracked
unfolding slot_of lane_bit insert_best
scan_tracked_lanes zero i ix query key block limit t = t
scan_tracked_lanes (suc n) i ix query key block limit t =
    let s = slot_of ix query block i in
    scan_tracked_lanes n (i + 1) ix query key block limit
      (if lane_bit limit s.dist then insert_best s key t else t)

-- `for b in 0..blocks`
unfoldable pub scan_tracked_blocks :
    ℕ → ℕ → SpecialistIndex → QueryVector → ℕ → ℕ → ℕ → Tracked → Tracked
unfolding scan_tracked_lanes
scan_tracked_blocks zero b ix query key start_block len t = t
scan_tracked_blocks (suc n) b ix query key start_block len t =
    scan_tracked_blocks n (b + 1) ix query key start_block len (
      scan_tracked_lanes (min (len - b * lanes) lanes) 0 ix query key (start_block + b)
        (kth_dist t.best) t)

unfoldable pub scan_leaf : SpecialistIndex → ℕ → QueryVector → ℕ → Tally → Tally
unfolding scan_tracked_blocks
scan_leaf ix node_idx query key t =
    let len = Layout.node_len ix.nodes_base node_idx in
    let blocks = (len + lanes - 1) / lanes in
    let t' = count (leaf_scanned blocks) t in
    record t' {
      tracked =
          scan_tracked_blocks blocks 0 ix query key (Layout.node_start ix.nodes_base node_idx) len
            t'.tracked;
    }

-- the variables of the loop of `search_node_iterative`
pub record TrackedSearch : Type 0 where
  pub current : Frame
  pub stack : List Frame
  pub tally : Tally

pub data TrackedStep : Type 0 where
  more : TrackedSearch → TrackedStep
  done : Tally → TrackedStep

unfoldable pub pop_tracked : TrackedSearch → TrackedStep
pop_tracked s = elim s.stack [
  | [] ↦ done s.tally
  | f ∷ rest ↦ more (record s { current = f; stack = rest })
]

abbrev pub kth : TrackedSearch → ℤ
kth s = kth_dist s.tally.tracked.best

unfoldable pub descend_tracked : TrackedSearch → Frame → Frame → TrackedStep
unfolding pop_tracked
descend_tracked s near far =
    let room = leb_ℤ far.bound (kth s) && ltb (length s.stack) tree_stack_capacity in
    let s' = if room then record s { stack = far ∷ s.stack } else s in
    if leb_ℤ near.bound (kth s) then more (record s' { current = near }) else pop_tracked s'

unfoldable pub branch_tracked : TrackedSearch → Frame → Frame → TrackedStep
unfolding descend_tracked
branch_tracked s l r =
    if leb_ℤ l.bound r.bound then descend_tracked s l r else descend_tracked s r l

-- a node that is within the bound
unfoldable pub visit_tracked : SpecialistIndex → QueryVector → ℕ → TrackedSearch → TrackedStep
unfolding branch_tracked pop_tracked scan_leaf
visit_tracked ix query key s =
    let left = Layout.node_left ix.nodes_base s.current.node in
    let right = Layout.node_right ix.nodes_base s.current.node in
    if ltb_ℤ left (pos 0) || ltb_ℤ right (pos 0)
    then pop_tracked (record s { tally = scan_leaf ix s.current.node query key s.tally })
    else branch_tracked s (child ix query (as_usize left)) (child ix query (as_usize right))

unfoldable pub step_tracked : SpecialistIndex → QueryVector → ℕ → TrackedSearch → TrackedStep
unfolding visit_tracked pop_tracked
step_tracked ix query key s =
    if leb_ℤ s.current.bound (kth s)
    then visit_tracked ix query key (record s { tally = count node_visited s.tally })
    else pop_tracked s

-- `none`: the fuel ran out
unfoldable pub tracked_loop : ℕ → SpecialistIndex → QueryVector → ℕ → TrackedSearch → Option Tally
unfolding step_tracked
tracked_loop zero ix query key s = none
tracked_loop (suc fuel) ix query key s = elim (step_tracked ix query key s) [
  | more s' ↦ tracked_loop fuel ix query key s'
  | done t ↦ some t
]

unfoldable pub search_node_iterative :
    ℕ → SpecialistIndex → Frame → QueryVector → ℕ → Tally → Option Tally
unfolding tracked_loop
search_node_iterative fuel ix root query key t =
    tracked_loop fuel ix query key
      (record { current = root; stack = []; tally = count partition_visited t })
