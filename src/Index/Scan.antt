-- ===== src/Index/Scan.antt =====
-- The vector code of src/index/search.rs, lane by lane, and the scan of a leaf
-- (`scan_leaf_fast`, src/index/mod.rs). Prefetching has no effect on values and is left out.
pub mod Leaf
pub mod Bound
use rinha_rust_tree.Prelude.{
  ℕ, zero, suc, ◌+◌, ◌-◌, ◌*◌, ◌/◌, ◌^◌, min, Bool, true, false, List, [], ◌∷◌, ltb, if◌then◌else◌,
  get_or, take, replicate,
}
use rinha_rust_tree.Prelude.Int.{ℤ, pos, ◌+ℤ◌, ◌-ℤ◌, ltb_ℤ}
use rinha_rust_tree.Index.Words.{wrap32, sub16, max16, madd}
use rinha_rust_tree.Index.Layout
use rinha_rust_tree.Index.Table.{QueryVector, dim, SpecialistIndex}
use rinha_rust_tree.Index.Best.{Slot, kth_dist, insert_best_fast}

abbrev pub lanes : ℕ
lanes = 8

-- `DIMS` of src/lib.rs; `DIM_PAIRS` is its half
abbrev pub dims : ℕ
dims = 14

abbrev pub i32_max : ℕ
i32_max = 2 ^ 31 - 1

-- How far `q` is below the box or above it in one dimension.
unfoldable pub box_gap : ℤ → ℤ → ℤ → ℤ
unfolding ◌-ℤ◌
box_gap q mn mx = max16 (max16 (sub16 mn q) (pos 0)) (max16 (sub16 q mx) (pos 0))

-- The eight 32-bit lanes of `_mm256_madd_epi16` from pair `p` on, summed in 64 bits.
unfoldable pub box_sum : ℕ → ℕ → QueryVector → QueryVector → QueryVector → ℤ
unfolding box_gap ◌+ℤ◌
box_sum zero p query mn mx = pos 0
box_sum (suc n) p query mn mx =
    madd (box_gap (dim query (2 * p)) (dim mn (2 * p)) (dim mx (2 * p)))
      (box_gap (dim query (2 * p + 1)) (dim mn (2 * p + 1)) (dim mx (2 * p + 1)))
    +ℤ box_sum n (p + 1) query mn mx

unfoldable pub lower_bound_box : QueryVector → QueryVector → QueryVector → ℤ
unfolding box_sum
lower_bound_box query mn mx = box_sum 8 0 query mn mx

-- The accumulator of lane `i`, over the pairs from `p` on.
unfoldable pub lane_sum : ℕ → ℕ → List ℤ → ℕ → QueryVector → ℕ → ℤ → ℤ
unfolding ◌-ℤ◌ ◌+ℤ◌
lane_sum zero p vectors block_base query i acc = acc
lane_sum (suc n) p vectors block_base query i acc =
    let at = block_base + p * lanes * 2 + i * 2 in
    let d0 = sub16 (dim query (p * 2)) (get_or vectors at (pos 0)) in
    let d1 = sub16 (dim query (p * 2 + 1)) (get_or vectors (at + 1) (pos 0)) in
    lane_sum n (p + 1) vectors block_base query i (wrap32 (acc +ℤ madd d0 d1))

unfoldable pub lane_dist : List ℤ → ℕ → QueryVector → ℕ → ℤ
unfolding lane_sum
lane_dist vectors block_base query i = lane_sum (dims / 2) 0 vectors block_base query i (pos 0)

-- Lane `i` of the mask of `scan_block_pair_avx2_bounded`.
unfoldable pub lane_bit : ℤ → ℤ → Bool
unfolding ◌+ℤ◌
lane_bit limit dist =
    if ltb_ℤ limit (pos i32_max) then ltb_ℤ dist (wrap32 (wrap32 limit +ℤ pos 1)) else true

-- The stored vector in lane `i` of a block. Where the code's bounds check on `labels` or
-- `ref_indices` would panic, 0 is read here: a file whose leaves reach past its blocks.
unfoldable pub slot_of : SpecialistIndex → QueryVector → ℕ → ℕ → Slot
unfolding lane_dist
slot_of ix query block i = record {
  dist = lane_dist ix.vectors (block * dims * lanes) query i;
  label = get_or ix.labels (block * lanes + i) 0;
  index = get_or ix.ref_indices (block * lanes + i) 0;
}

-- `while mask != 0`: the set lanes in ascending order, `n` of them left from lane `i` on. The mask
-- rests on the limit that was read before the block.
unfoldable pub scan_lanes : ℕ → ℕ → SpecialistIndex → QueryVector → ℕ → ℤ → List Slot → List Slot
unfolding slot_of lane_bit insert_best_fast
scan_lanes zero i ix query block limit best = best
scan_lanes (suc n) i ix query block limit best =
    let s = slot_of ix query block i in
    scan_lanes n (i + 1) ix query block limit
      (if lane_bit limit s.dist then insert_best_fast s best else best)

-- `for b in 0..blocks`, `n` blocks left from block `b` on. With an empty mask nothing is offered.
unfoldable pub scan_blocks : ℕ → ℕ → SpecialistIndex → QueryVector → ℕ → ℕ → List Slot → List Slot
unfolding scan_lanes
scan_blocks zero b ix query start_block len best = best
scan_blocks (suc n) b ix query start_block len best =
    scan_blocks n (b + 1) ix query start_block len
      (scan_lanes (min (len - b * lanes) lanes) 0 ix query (start_block + b) (kth_dist best) best)

unfoldable pub scan_leaf_fast : SpecialistIndex → ℕ → QueryVector → List Slot → List Slot
unfolding scan_blocks
scan_leaf_fast ix node_idx query best =
    let len = Layout.node_len ix.nodes_base node_idx in
    scan_blocks ((len + lanes - 1) / lanes) 0 ix query (Layout.node_start ix.nodes_base node_idx)
      len best
