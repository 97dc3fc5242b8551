-- ===== src/Index/Build.antt =====
-- src/index/build.rs: the tree of a partition, built into the vectors of the nodes and of the
-- blocks. Those two are the state `Building`; `references` is indexed with its own positions only,
-- where Rust's bounds check passes. The standard library's `sort_unstable_by` is a parameter: a sort
-- by a key.
pub mod Tree
pub mod Node
pub mod Boxes
pub mod File
pub mod Partitions
pub mod Groups
use Prim.Native.Nat.{bit_or}
use rinha_rust_tree.Prelude.{
  ℕ, zero, suc, ◌+◌, ◌-◌, ◌*◌, ◌/◌, ◌%◌, ◌^◌, min, max, Bool, true, false, not, ◌&&◌, List, [], ◌∷◌,
  ◌++◌, Option, none, some, ltb, leb, if◌then◌else◌, length, get_or, take, drop, replicate, set,
}
use rinha_rust_tree.Prelude.Int.{ℤ, pos, negsuc, ◌+ℤ◌, ◌-ℤ◌, ltb_ℤ, eqb_ℤ}
use rinha_rust_tree.Index.Words.{square, sub16, max16, wrap32}
pub use rinha_rust_tree.Index.Layout.{packed_dims}
pub use rinha_rust_tree.Index.Scan.{lanes, dims}
use rinha_rust_tree.Index.Table.{QueryVector, dim}

pub record Reference : Type 0 where
  pub vector : QueryVector
  pub label : ℕ

pub record NodeEntry : Type 0 where
  pub left : ℤ
  pub right : ℤ
  pub start : ℕ
  pub len : ℕ
  pub mn : QueryVector
  pub mx : QueryVector
  pub class_bits : ℕ

-- an element of `all_blocks`
pub record Lane : Type 0 where
  pub vector : QueryVector
  pub label : ℕ
  pub index : ℕ

pub record Building : Type 0 where
  pub all_blocks : List Lane
  pub nodes : List NodeEntry

-- `KdSplitStrategy`
pub data KdSplitStrategy : Type 0 where
  widest : KdSplitStrategy
  variance : KdSplitStrategy

abbrev pub Sort : Type 0
Sort = (ℕ → ℤ) → List ℕ → List ℕ

abbrev pub zero_vector : QueryVector
zero_vector = replicate packed_dims (pos 0)

abbrev pub reference_at : List Reference → ℕ → Reference
reference_at references idx = get_or references idx (record { vector = zero_vector; label = 0 })

abbrev pub min16 : ℤ → ℤ → ℤ
min16 a b = if ltb_ℤ b a then b else a

-- `for d in 0..PACKED_DIMS`
unfoldable pub mins : QueryVector → QueryVector → QueryVector
mins [] vector = []
mins (m ∷ mn) [] = m ∷ mn
mins (m ∷ mn) (v ∷ vector) = min16 m v ∷ mins mn vector

unfoldable pub maxs : QueryVector → QueryVector → QueryVector
maxs [] vector = []
maxs (m ∷ mx) [] = m ∷ mx
maxs (m ∷ mx) (v ∷ vector) = max16 m v ∷ maxs mx vector

unfoldable pub box_min : List Reference → List ℕ → QueryVector → QueryVector
unfolding mins
box_min references [] mn = mn
box_min references (idx ∷ indices) mn =
    box_min references indices (mins mn (reference_at references idx).vector)

unfoldable pub box_max : List Reference → List ℕ → QueryVector → QueryVector
unfolding maxs
box_max references [] mx = mx
box_max references (idx ∷ indices) mx =
    box_max references indices (maxs mx (reference_at references idx).vector)

-- `[i16::MAX; PACKED_DIMS]` and `[i16::MIN; PACKED_DIMS]`
abbrev pub i16_max : ℤ
i16_max = pos (2 ^ 15 - 1)

abbrev pub i16_min : ℤ
i16_min = negsuc (2 ^ 15 - 1)

-- The box of the references, as the first loop of `build_node` leaves it.
abbrev pub lower : List Reference → List ℕ → QueryVector
lower references indices = box_min references indices (replicate packed_dims i16_max)

abbrev pub upper : List Reference → List ℕ → QueryVector
upper references indices = box_max references indices (replicate packed_dims i16_min)

-- `widest_dimension`, `n` dimensions left from `d` on
unfoldable pub widest_from : ℕ → ℕ → QueryVector → QueryVector → ℕ → ℤ → ℕ
unfolding ◌-ℤ◌
widest_from zero d mn mx best_dim best_width = best_dim
widest_from (suc n) d mn mx best_dim best_width =
    let width = sub16 (dim mx d) (dim mn d) in
    let wider = ltb_ℤ best_width width in
    widest_from n (d + 1) mn mx (if wider then d else best_dim)
      (if wider then width else best_width)

unfoldable pub widest_dimension : QueryVector → QueryVector → ℕ
unfolding widest_from
widest_dimension mn mx = widest_from dims 0 mn mx 0 i16_min

unfoldable pub sum_of : List Reference → ℕ → List ℕ → ℤ
unfolding ◌+ℤ◌
sum_of references d [] = pos 0
sum_of references d (idx ∷ indices) =
    dim (reference_at references idx).vector d +ℤ sum_of references d indices

unfoldable pub sum_sq_of : List Reference → ℕ → List ℕ → ℕ
sum_sq_of references d [] = 0
sum_sq_of references d (idx ∷ indices) =
    square (dim (reference_at references idx).vector d) + sum_sq_of references d indices

-- The i128 arithmetic does not wrap: `best_score` is `none` for `i128::MIN`.
abbrev beats : ℤ → Option ℤ → Bool
beats score none = true
beats score (some best) = ltb_ℤ best score

unfoldable pub variance_from :
    ℕ → ℕ → List Reference → List ℕ → QueryVector → QueryVector → ℕ → Option ℤ → ℕ
unfolding sum_of sum_sq_of ◌-ℤ◌
variance_from zero d references indices mn mx best_dim best_score = best_dim
variance_from (suc n) d references indices mn mx best_dim best_score =
    let score =
      pos (length indices * sum_sq_of references d indices)
      -ℤ pos (square (sum_of references d indices)) in
    let better = not (eqb_ℤ (dim mn d) (dim mx d)) && beats score best_score in
    variance_from n (d + 1) references indices mn mx (if better then d else best_dim)
      (if better then some score else best_score)

unfoldable pub variance_dimension : List Reference → List ℕ → QueryVector → QueryVector → ℕ
unfolding variance_from widest_dimension
variance_dimension references indices mn mx =
    variance_from dims 0 references indices mn mx (widest_dimension mn mx) none

unfoldable pub split_dimension :
    KdSplitStrategy → List Reference → List ℕ → QueryVector → QueryVector → ℕ
unfolding variance_dimension
split_dimension widest references indices mn mx = widest_dimension mn mx
split_dimension variance references indices mn mx = variance_dimension references indices mn mx

abbrev pub lane_of : List Reference → ℕ → Lane
lane_of references idx =
    let r = reference_at references idx in
    record { vector = r.vector; label = r.label; index = idx % 2 ^ 32 }

-- what fills the last block of a leaf
abbrev pub padding : Lane
padding = record { vector = zero_vector; label = 0; index = 2 ^ 32 - 1 }

-- The loops over the blocks and their lanes, as one over `i`: `n` lanes left from lane `i` on.
unfoldable pub leaf_lanes : ℕ → ℕ → List Reference → List ℕ → List Lane
leaf_lanes zero i references indices = []
leaf_lanes (suc n) i references indices =
    let rest = leaf_lanes n (i + 1) references indices in
    (if ltb i (length indices) then lane_of references (get_or indices i 0) else padding) ∷ rest

-- `class_bits |= 1u8 << ref_item.label.min(7)`
unfoldable pub leaf_bits : List Reference → List ℕ → ℕ → ℕ
leaf_bits references [] bits = bits
leaf_bits references (idx ∷ indices) bits =
    leaf_bits references indices (bit_or bits (2 ^ min (reference_at references idx).label 7))

abbrev pub empty_node : QueryVector → QueryVector → NodeEntry
empty_node mn mx = record {
  left = negsuc 0;
  right = negsuc 0;
  start = 0;
  len = 0;
  mn = mn;
  mx = mx;
  class_bits = 0;
}

abbrev pub node_at : List NodeEntry → ℕ → NodeEntry
node_at nodes i = get_or nodes i (empty_node [] [])

-- a leaf, at the place that was pushed for it
unfoldable pub build_leaf : List Reference → List ℕ → ℕ → Building → Building
unfolding leaf_lanes leaf_bits box_min box_max
build_leaf references indices node_idx st =
    let blocks = (length indices + lanes - 1) / lanes in
    record {
      all_blocks = st.all_blocks ++ leaf_lanes (blocks * lanes) 0 references indices;
      nodes = set st.nodes node_idx (record {
        left = negsuc 0;
        right = negsuc 0;
        start = length st.all_blocks;
        len = length indices;
        mn = lower references indices;
        mx = upper references indices;
        class_bits = leaf_bits references indices 0;
      });
    }

-- The entry of an inner node, once its children are built.
unfoldable pub join : QueryVector → QueryVector → ℕ → ℕ → ℕ → Building → Building
join mn mx node_idx left_node right_node st =
    let left_info = node_at st.nodes left_node in
    let right_info = node_at st.nodes right_node in
    record st {
      nodes = set st.nodes node_idx (record {
        left = wrap32 (pos left_node);
        right = wrap32 (pos right_node);
        start = left_info.start;
        len = left_info.len + right_info.len;
        mn = mn;
        mx = mx;
        class_bits = bit_or left_info.class_bits right_info.class_bits;
      });
    }

infixl 5 ◌>>=◌
abbrev pub ◌>>=◌ {ℓ κ} : {A : Type ℓ} {B : Type κ} → Option A → (A → Option B) → Option B
none >>= f = none
some a >>= f = f a

module _ (sort : Sort) (references : List Reference) (leaf_size : ℕ)
    (strategy : KdSplitStrategy) where
  -- the indices by the dimension to split
  unfoldable pub split_sorted : List ℕ → List ℕ
  unfolding split_dimension
  split_sorted indices =
      let split_dim =
        split_dimension strategy references indices (lower references indices)
          (upper references indices) in
      sort (λ idx. dim (reference_at references idx).vector split_dim) indices

  -- The node's index in the result; `none` is no answer of the code: the fuel ran out.
  unfoldable pub build_node : ℕ → List ℕ → Building → Option (Building × ℕ)
  unfolding build_leaf split_sorted join
  build_node zero indices st = none
  build_node (suc fuel) indices st =
      let mn = lower references indices in
      let mx = upper references indices in
      let node_idx = length st.nodes in
      let pushed = record st { nodes = st.nodes ++ (empty_node mn mx ∷ []) } in
      let sorted = split_sorted indices in
      let left_len = length sorted / 2 in
      elim (leb (length indices) leaf_size) [
        | true ↦ some (build_leaf references indices node_idx pushed, node_idx)
        | false ↦ do
          (st1, left_node) ← build_node fuel (take left_len sorted) pushed
          (st2, right_node) ← build_node fuel (drop left_len sorted) st1
          some (join mn mx node_idx left_node right_node st2, node_idx)
      ]
