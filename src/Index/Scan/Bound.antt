-- ===== src/Index/Scan/Bound.antt =====
-- The distance of a lane is the sum of the squared differences, and the lower bound of a box is not
-- above it for a vector in the box, where nothing overflows.
use native.Mathlib.Nat.{mul-le-mul}
use rinha_rust_tree.Prelude.{
  ℕ, zero, suc, ◌+◌, ◌-◌, ◌*◌, ◌^◌, ◌≤◌, ◌<◌, ◌≡◌, ap, ◌∙◌, List, arith, get_or,
}
use rinha_rust_tree.Prelude.Int.{ℤ, pos, negsuc, pos_part, neg_part, ◌-ℤ◌, ◌+ℤ◌, ◌≤ℤ◌}
use rinha_rust_tree.Index.Words.{square, sub16, max16, madd, wrap32, wrap32-fits}
use rinha_rust_tree.Index.Table.{QueryVector, dim}
use rinha_rust_tree.Index.Scan.{lanes, box_gap, box_sum, lower_bound_box, lane_sum, lane_dist}

-- Differences of such values are i16.
abbrev pub InRange : ℤ → Type 0
InRange a = (negsuc (2 ^ 14 - 1) ≤ℤ a) × (a ≤ℤ pos (2 ^ 14 - 1))

-- The squared differences of `n` pairs of dimensions from pair `p` on, without wrap-around.
unfoldable pub squared_distance : ℕ → ℕ → QueryVector → QueryVector → ℕ
unfolding ◌-ℤ◌
squared_distance zero p query v = 0
squared_distance (suc n) p query v =
    square (dim query (2 * p) -ℤ dim v (2 * p))
    + square (dim query (2 * p + 1) -ℤ dim v (2 * p + 1))
    + squared_distance n (p + 1) query v

abbrev size : ℤ → ℕ
size z = pos_part z + neg_part z

square-le : (a b : ℤ) → size a ≤ size b → square a ≤ square b
square-le a b h = mul-le-mul h h

sub16-exact : (a b : ℤ) → InRange a → InRange b → sub16 a b ≡ a -ℤ b
unfolding ◌-ℤ◌
sub16-exact a b h k = ground arith

max16-size :
    (a b : ℤ) (n : ℕ)
    → pos_part a ≤ n
    → pos_part b ≤ n
    → size (max16 (max16 a (pos 0)) (max16 b (pos 0))) ≤ n
max16-size a b n h k = ground arith

below_size : (q v m : ℤ) → m ≤ℤ v → pos_part (m -ℤ q) ≤ size (q -ℤ v)
unfolding ◌-ℤ◌
below_size q v m h = ground arith

above_size : (q v m : ℤ) → v ≤ℤ m → pos_part (q -ℤ m) ≤ size (q -ℤ v)
unfolding ◌-ℤ◌
above_size q v m h = ground arith

box_gap-le :
    (q mn mx v : ℤ)
    → InRange q
    → InRange mn
    → InRange mx
    → mn ≤ℤ v
    → v ≤ℤ mx
    → size (box_gap q mn mx) ≤ size (q -ℤ v)
unfolding box_gap
box_gap-le q mn mx v hq hn hx below above =
    rw (sub16-exact mn q hn hq, sub16-exact q mx hq hx)
      (max16-size (mn -ℤ q) (q -ℤ mx) _ (below_size q v mn below) (above_size q v mx above))

madd-exact : (a b : ℤ) → square a + square b < 2 ^ 31 → madd a b ≡ pos (square a + square b)
madd-exact a b h = wrap32-fits _ (omega (arith, h))

add-le : (x n m : ℕ) (z : ℤ) → x ≤ n → z ≤ℤ pos m → pos x +ℤ z ≤ℤ pos (n + m)
unfolding ◌+ℤ◌
add-le x n m z h k = ground arith

-- what a box and a vector have to do with each other, and the query's range, in each dimension
pub record IsInside (query mn mx v : QueryVector) : Type 0 where
  pub query_range : (d : ℕ) → InRange (dim query d)
  pub min_range : (d : ℕ) → InRange (dim mn d)
  pub max_range : (d : ℕ) → InRange (dim mx d)
  pub above_min : (d : ℕ) → dim mn d ≤ℤ dim v d
  pub below_max : (d : ℕ) → dim v d ≤ℤ dim mx d

module _ (query mn mx v : QueryVector) (inside : IsInside query mn mx v) where
  gap_square-le :
      (d : ℕ)
      → square (box_gap (dim query d) (dim mn d) (dim mx d)) ≤ square (dim query d -ℤ dim v d)
  gap_square-le d =
      square-le (box_gap (dim query d) (dim mn d) (dim mx d)) (dim query d -ℤ dim v d) (
        box_gap-le (dim query d) (dim mn d) (dim mx d) (dim v d) (inside.query_range d)
          (inside.min_range d) (inside.max_range d) (inside.above_min d) (inside.below_max d))

  box_sum-le :
      (n p : ℕ)
      → squared_distance n p query v < 2 ^ 31
      → (box_sum n p query mn mx ≤ℤ pos (squared_distance n p query v))
  unfolding box_sum squared_distance
  box_sum-le zero p h = omega arith
  box_sum-le (suc n) p h =
      let g = box_gap (dim query (2 * p)) (dim mn (2 * p)) (dim mx (2 * p)) in
      let g' = box_gap (dim query (2 * p + 1)) (dim mn (2 * p + 1)) (dim mx (2 * p + 1)) in
      let a = gap_square-le (2 * p) in
      let b = gap_square-le (2 * p + 1) in
      let rest = box_sum-le n (p + 1) (omega (arith, h)) in
      rw (madd-exact g g' (omega (arith, a, b, h))) (
        add-le (square g + square g') _ (squared_distance n (p + 1) query v)
          (box_sum n (p + 1) query mn mx) (omega (arith, a, b)) rest)

-- Lane `i` of the block at `block_base` holds the vector.
abbrev pub HoldsVector : List ℤ → ℕ → ℕ → QueryVector → Type 0
HoldsVector vectors block_base i v =
    (p : ℕ)
    → p < 7
    → (get_or vectors (block_base + p * lanes * 2 + i * 2) (pos 0) ≡ dim v (2 * p))
      × (get_or vectors (block_base + p * lanes * 2 + i * 2 + 1) (pos 0) ≡ dim v (2 * p + 1))

pos_add : (a b : ℕ) → a + b < 2 ^ 31 → wrap32 (pos a +ℤ pos b) ≡ pos (a + b)
unfolding ◌+ℤ◌
pos_add a b h = ground arith

module _ (vectors : List ℤ) (block_base i : ℕ) (query v : QueryVector)
    (holds : HoldsVector vectors block_base i v) (query_range : (d : ℕ) → InRange (dim query d))
    (vector_range : (d : ℕ) → InRange (dim v d)) where
  lane_sum_lem :
      (n p acc : ℕ)
      → n + p ≤ 7
      → acc + squared_distance n p query v < 2 ^ 31
      → lane_sum n p vectors block_base query i (pos acc) ≡ pos (acc + squared_distance n p query v)
  unfolding lane_sum squared_distance
  lane_sum_lem zero p acc h k = ap pos (omega arith)
  lane_sum_lem (suc n) p acc h k =
      let even : p * 2 ≡ 2 * p = omega arith in
      let (e, f) = holds p (omega arith) in
      let d0 = dim query (2 * p) -ℤ dim v (2 * p) in
      let d1 = dim query (2 * p + 1) -ℤ dim v (2 * p + 1) in
      let x = sub16-exact (dim query (2 * p)) (dim v (2 * p)) (query_range _) (vector_range _) in
      let y =
        sub16-exact (dim query (2 * p + 1)) (dim v (2 * p + 1)) (query_range _) (vector_range _) in
      let m = madd-exact d0 d1 (omega (arith, k)) in
      let sum = pos_add acc (square d0 + square d1) (omega (arith, k)) in
      let rest =
        lane_sum_lem n (p + 1) (acc + (square d0 + square d1)) (omega arith) (omega (arith, k)) in
      rw (even, e, f, x, y, m, sum) (rest ∙ ap pos (omega arith))

  -- Where the squared distance fits in 31 bits, the lane computes it.
  pub lane_dist_lem :
      squared_distance 7 0 query v < 2 ^ 31
      → lane_dist vectors block_base query i ≡ pos (squared_distance 7 0 query v)
  unfolding lane_dist
  lane_dist_lem h =
      let z : 0 + squared_distance 7 0 query v ≡ squared_distance 7 0 query v = omega arith in
      rw z at (lane_sum_lem 7 0 0 (omega arith) (rw z h))

abbrev pair : QueryVector → QueryVector → ℕ → ℕ
pair query v p =
    square (dim query (2 * p) -ℤ dim v (2 * p))
    + square (dim query (2 * p + 1) -ℤ dim v (2 * p + 1))

squared_distance-last :
    (n p : ℕ) (query v : QueryVector)
    → squared_distance (suc n) p query v ≡ squared_distance n p query v + pair query v (p + n)
unfolding squared_distance
squared_distance-last zero p query v = let z : p + 0 ≡ p = omega arith in rw z (omega arith)
squared_distance-last (suc n) p query v =
    let z : p + suc n ≡ p + 1 + n = omega arith in
    let rest = squared_distance-last n (p + 1) query v in
    rw z (ap (λ (r : ℕ). pair query v p + r) rest ∙ omega arith)

sub_self : (a : ℤ) → square (a -ℤ a) ≡ 0
unfolding ◌-ℤ◌
sub_self a = ground arith

-- The two dimensions of padding add nothing.
padding-zero :
    (query v : QueryVector)
    → dim query 14 ≡ dim v 14
    → dim query 15 ≡ dim v 15
    → squared_distance 8 0 query v ≡ squared_distance 7 0 query v
padding-zero query v h k =
    let last = squared_distance-last 7 0 query v in
    let a : square (dim query 14 -ℤ dim v 14) ≡ 0 = rw h (sub_self (dim v 14)) in
    let b : square (dim query 15 -ℤ dim v 15) ≡ 0 = rw k (sub_self (dim v 15)) in
    omega (arith, last, a, b)

-- The lower bound of a box that contains a stored vector is not above the vector's distance.
pub lower_bound_box-le :
    (vectors : List ℤ) (block_base i : ℕ) (query mn mx v : QueryVector)
    → IsInside query mn mx v
    → ((d : ℕ) → InRange (dim v d))
    → HoldsVector vectors block_base i v
    → (dim query 14 ≡ dim v 14) × (dim query 15 ≡ dim v 15)
    → squared_distance 7 0 query v < 2 ^ 31
    → lower_bound_box query mn mx ≤ℤ lane_dist vectors block_base query i
unfolding lower_bound_box
lower_bound_box-le vectors block_base i query mn mx v inside range holds (h, k) small =
    let same = padding-zero query v h k in
    let dist = lane_dist_lem vectors block_base i query v holds inside.query_range range small in
    rw dist (rw same at (box_sum-le query mn mx v inside 8 0 (rw same small)))
