-- ===== src/Index/Scan/Leaf.antt =====
-- The scan of a leaf offers every vector of the leaf that may still matter.
use mathlib.Core.List.{Perm, perm_middle, perm_append_comm, map-append, append_assoc}
use mathlib.Core.List.Perm
use rinha_rust_tree.Prelude.{
  ℕ, zero, suc, ◌+◌, ◌-◌, ◌*◌, ◌/◌, ◌^◌, ◌≡◌, ◌≤◌, ◌<◌, length, min, Bool, false, List, [], ◌∷◌,
  ◌++◌, map, arith, inl, inr, if◌then◌else◌, Bool-cases, All, All-append,
}
use rinha_rust_tree.Prelude.Int.{ℤ, negsuc, ◌+ℤ◌, ◌≤ℤ◌, ◌<ℤ◌}
use rinha_rust_tree.Index.Words.{wrap32-bounds}
use rinha_rust_tree.Index.Layout
use rinha_rust_tree.Index.Table.{QueryVector, SpecialistIndex}
use rinha_rust_tree.Index.Best.{Slot, kth_dist, insert_best_fast}
use rinha_rust_tree.Index.Best.Nearest.{
  Past-lt, IsNearest, refused-IsNearest, insert_best_fast-IsNearest, IsNearest-perm, kth_dist-ge,
  kth_dist-insert_best_fast,
}
use rinha_rust_tree.Index.Scan.{
  dims, lanes, lane_bit, lane_dist, lane_sum, slot_of, scan_lanes, scan_blocks, scan_leaf_fast,
}

-- a stored vector: its block and its lane
abbrev pub Place : Type 0
Place = ℕ × ℕ

unfoldable pub lane_places : ℕ → ℕ → ℕ → List Place
lane_places zero i block = []
lane_places (suc n) i block = (block, i) ∷ lane_places n (i + 1) block

unfoldable pub block_places : ℕ → ℕ → ℕ → ℕ → List Place
block_places zero b start len = []
block_places (suc n) b start len =
    lane_places (min (len - b * lanes) lanes) 0 (start + b) ++ block_places n (b + 1) start len

-- The vectors of a leaf: the first `len` lanes of its blocks.
unfoldable pub leaf_places : SpecialistIndex → ℕ → List Place
leaf_places ix node =
    let len = Layout.node_len ix.nodes_base node in
    block_places ((len + lanes - 1) / lanes) 0 (Layout.node_start ix.nodes_base node) len

-- The vectors, the labels and the indices of the file reach as far as the place.
abbrev pub IsStored : SpecialistIndex → Place → Type 0
IsStored ix (block, i) =
    ((block + 1) * dims * lanes ≤ length ix.vectors)
    × (block * lanes + i < length ix.labels)
    × (block * lanes + i < length ix.ref_indices)

abbrev pub i32_min : ℤ
i32_min = negsuc (2 ^ 31 - 1)

-- A lane that the mask leaves out is farther than the limit.
lane_bit-false : (limit dist : ℤ) → i32_min ≤ℤ limit → lane_bit limit dist ≡ false → limit <ℤ dist
unfolding lane_bit ◌+ℤ◌
lane_bit-false limit dist h b = ground arith

module _ (ix : SpecialistIndex) (query : QueryVector) where
  abbrev pub slot_at_place : Place → Slot
  slot_at_place (block, i) = slot_of ix query block i

  abbrev pub slots_at : List Place → List Slot
  slots_at = map slot_at_place

  slot_of-ge : (block i : ℕ) → i32_min ≤ℤ (slot_of ix query block i).dist
  unfolding slot_of lane_dist lane_sum
  slot_of-ge block i = (wrap32-bounds _).0

  -- The stored slots have 32-bit distances.
  pub slots_at-ge : (ps : List Place) → All (λ s. i32_min ≤ℤ s.dist) (slots_at ps)
  slots_at-ge [] = tt
  slots_at-ge ((block, i) ∷ ps) = (slot_of-ge block i, slots_at-ge ps)

  pub regroup-perm :
      (xs ys : List Place) (pool : List Slot)
      → Perm (slots_at ys ++ (slots_at xs ++ pool)) (slots_at (xs ++ ys) ++ pool)
  regroup-perm xs ys pool = rw (map-append slot_at_place xs ys) (
      rw (← append_assoc (slots_at ys) (slots_at xs) pool)
        (Perm.append_right pool (perm_append_comm (slots_at ys) (slots_at xs))))

  module _ (exact : Bool) where
    scan_lane-IsNearest :
        {best pool : List Slot} (block i : ℕ) (limit : ℤ)
        → IsNearest exact best pool
        → i32_min ≤ℤ limit
        → kth_dist best ≤ℤ limit
        → let s = slot_of ix query block i in
          let next = if lane_bit limit s.dist then insert_best_fast s best else best in
          IsNearest exact next (s ∷ pool) × (kth_dist next ≤ℤ limit)
    scan_lane-IsNearest {best} block i limit n lo hi =
        let s = slot_of ix query block i in
        elim (Bool-cases (lane_bit limit s.dist)) [
          | inl e ↦
              rw e
                (insert_best_fast-IsNearest exact s n, omega (arith, kth_dist-insert_best_fast s n))
          | inr e ↦ rw e (
            refused-IsNearest exact s n
                (Past-lt exact _ s (omega (arith, lane_bit-false limit s.dist lo e))),
            hi,
          )
        ]

    scan_lanes-IsNearest :
        (n i block : ℕ) (limit : ℤ) {best pool : List Slot}
        → IsNearest exact best pool
        → i32_min ≤ℤ limit
        → kth_dist best ≤ℤ limit
        → IsNearest exact
            (scan_lanes n i ix query block limit best)
            (slots_at (lane_places n i block) ++ pool)
    unfolding scan_lanes lane_places
    scan_lanes-IsNearest zero i block limit v lo hi = v
    scan_lanes-IsNearest (suc n) i block limit {pool} v lo hi =
        let (kept, closer) = scan_lane-IsNearest block i limit v lo hi in
        let rest = slots_at (lane_places n (i + 1) block) in
        IsNearest-perm exact (perm_middle rest pool)
          (scan_lanes-IsNearest n (i + 1) block limit kept lo closer)

    scan_blocks-IsNearest :
        (n b start len : ℕ) {best pool : List Slot}
        → IsNearest exact best pool
        → All (λ s. i32_min ≤ℤ s.dist) pool
        → IsNearest exact
            (scan_blocks n b ix query start len best)
            (slots_at (block_places n b start len) ++ pool)
    unfolding scan_blocks block_places
    scan_blocks-IsNearest zero b start len v lo = v
    scan_blocks-IsNearest (suc n) b start len {best} {pool} v lo =
        let here = lane_places (min (len - b * lanes) lanes) 0 (start + b) in
        let rest = block_places n (b + 1) start len in
        let scanned =
          scan_lanes-IsNearest (min (len - b * lanes) lanes) 0 (start + b) (kth_dist best) v
            (kth_dist-ge i32_min v lo) (omega arith) in
        let all =
          scan_blocks-IsNearest n (b + 1) start len scanned
            (All-append _ (slots_at here) pool (slots_at-ge here) lo) in
        IsNearest-perm exact (regroup-perm here rest pool) all

    -- Slots that are K nearest of a pool, of distances from -2 ^ 31 on, are, after the scan of a
    -- leaf, K nearest of the pool with the leaf's vectors.
    pub scan_leaf_fast-IsNearest :
        (node : ℕ) {best pool : List Slot}
        → IsNearest exact best pool
        → All (λ s. i32_min ≤ℤ s.dist) pool
        → IsNearest exact
            (scan_leaf_fast ix node query best)
            (slots_at (leaf_places ix node) ++ pool)
    unfolding scan_leaf_fast leaf_places
    scan_leaf_fast-IsNearest node v lo = scan_blocks-IsNearest _ 0 _ _ v lo
