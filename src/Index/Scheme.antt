-- ===== src/Index/Scheme.antt =====
-- src/index/partition_scheme.rs: the candidates for the predicates of a scheme, the sampled
-- references and their nearest neighbours. `none` is the panic of an index that is out of range.
-- The standard library's sorts are parameters. The threads of `exact_topk` each fill their own part
-- of its result, which is a map here.
pub mod Train
pub mod Neighbors
pub mod Returns
pub mod Known
pub mod Found
pub mod Learned
pub mod Trained
pub mod Proper
pub mod Learn
use rinha_rust_tree.Prelude.{
  ℕ, zero, suc, ◌+◌, ◌-◌, ◌*◌, ◌/◌, ◌^◌, min, max, Bool, ◌&&◌, List, [], ◌∷◌, ◌++◌, Option, none,
  some, map, ltb, leb, ◌==◌, if◌then◌else◌, length, get_elem?, get_or, set, replicate,
}
use rinha_rust_tree.Prelude.Int.{ℤ, pos, negsuc, sub_ℕ, ◌+ℤ◌, ◌-ℤ◌, ltb_ℤ, eqb_ℤ, to_bits, of_bits}
use rinha_rust_tree.Index.Words.{square, wrap16}
use rinha_rust_tree.Index.Table.{QueryVector, dim}
use rinha_rust_tree.Index.Build.{Reference, dims, ◌>>=◌}
use rinha_rust_tree.Index.Best.{k, i64_max}

pub record Candidate : Type 0 where
  pub dim : ℕ
  pub threshold : ℤ

-- `/ 2`, which rounds towards zero
abbrev pub half : ℤ → ℤ
half (pos n) = pos (n / 2)
half (negsuc n) = sub_ℕ 0 (suc n / 2)

unfoldable pub midpoint : ℤ → ℤ → ℤ
unfolding ◌+ℤ◌
midpoint a b = wrap16 (half (a +ℤ b))

unfoldable pub predicate_matches : QueryVector → Candidate → Bool
predicate_matches vector predicate = ltb_ℤ predicate.threshold (dim vector predicate.dim)

-- `dedup`: of equal neighbours, the first.
module _ {A : Type 0} (same : A → A → Bool) where
  unfoldable pub dedup_behind : A → List A → List A
  dedup_behind x [] = []
  dedup_behind x (y ∷ ys) = let rest = dedup_behind y ys in if same x y then rest else y ∷ rest

  unfoldable pub dedup : List A → List A
  unfolding dedup_behind
  dedup [] = []
  dedup (x ∷ xs) = x ∷ dedup_behind x xs

-- `values.windows(2)`
unfoldable pub midpoints : ℤ → List ℤ → List ℤ
unfolding midpoint
midpoints a [] = []
midpoints a (b ∷ values) = midpoint a b ∷ midpoints b values

-- the loop over `q`, `n` rounds left
unfoldable pub quantiles : ℕ → ℕ → List ℤ → List ℤ
quantiles zero q values = []
quantiles (suc n) q values =
    get_or values ((length values - 1) * q / 16) (pos 0) ∷ quantiles n (q + 1) values

unfoldable pub thresholds : List ℤ → List ℤ
unfolding midpoints quantiles
thresholds [] = []
thresholds (a ∷ values) =
    if leb (length values) 0
    then []
    else if leb (suc (length values)) 64
    then midpoints a values
    else quantiles 15 1 (a ∷ values)

abbrev pub candidate : ℕ → ℤ → Candidate
candidate d threshold = record { dim = d; threshold = threshold }

-- `for dim in 0..DIMS`, `n` dimensions left
unfoldable pub candidates_from : (List ℤ → List ℤ) → List Reference → ℕ → ℕ → List Candidate
unfolding dedup thresholds
candidates_from sort_values references zero d = []
candidates_from sort_values references (suc n) d =
    let values = dedup eqb_ℤ (sort_values (map (λ r. dim r.vector d) references)) in
    map (candidate d) (thresholds values) ++ candidates_from sort_values references n (d + 1)

abbrev pub same_candidate : Candidate → Candidate → Bool
same_candidate a b = (a.dim == b.dim) && eqb_ℤ a.threshold b.threshold

unfoldable pub candidate_predicates :
    (List ℤ → List ℤ) → (List Candidate → List Candidate) → List Reference → List Candidate
unfolding candidates_from dedup
candidate_predicates sort_values sort_candidates references =
    dedup same_candidate (sort_candidates (candidates_from sort_values references dims 0))

-- `(i..n).step_by(step).take(count)`
unfoldable pub stepped : ℕ → ℕ → ℕ → ℕ → List ℕ
stepped zero step n i = []
stepped (suc count) step n i =
    let rest = stepped count step n (i + step) in if ltb i n then i ∷ rest else []

unfoldable pub sample_indices : ℕ → ℕ → List ℕ
unfolding stepped
sample_indices n max_samples =
    let sample = max (min n max_samples) 1 in
    let step = max (n / sample) 1 in stepped sample step n 0

-- an element of `best_d` and of `best_i`, which are written at the same position
pub record Neighbor : Type 0 where
  pub dist : ℤ
  pub index : ℕ

-- `i64::MAX` and `usize::MAX`
abbrev pub far : Neighbor
far = record { dist = i64_max; index = 2 ^ 64 - 1 }

abbrev pub no_near : List Neighbor
no_near = replicate k far

abbrev pub near_at : List Neighbor → ℕ → Neighbor
near_at best i = get_or best i far

abbrev pub wrap64 : ℤ → ℤ
wrap64 z = of_bits (2 ^ 63) (to_bits (2 ^ 64) z)

-- the loop over the dimensions, `n` of them left
unfoldable pub distance_from : ℕ → ℕ → QueryVector → QueryVector → ℤ → ℤ
unfolding ◌+ℤ◌ ◌-ℤ◌
distance_from zero d q v dist = dist
distance_from (suc n) d q v dist =
    distance_from n (d + 1) q v (wrap64 (dist +ℤ pos (square (dim q d -ℤ dim v d))))

abbrev pub distance : QueryVector → QueryVector → ℤ
distance q v = distance_from dims 0 q v (pos 0)

-- the `while` loop from position `p`, and the writes behind it
unfoldable pub shift_from : ℕ → Neighbor → List Neighbor → List Neighbor
shift_from zero c best = set best 0 c
shift_from (suc p) c best =
    let moved = shift_from p c (set best (suc p) (near_at best p)) in
    if ltb_ℤ c.dist (near_at best p).dist then moved else set best (suc p) c

unfoldable pub offer : Neighbor → List Neighbor → List Neighbor
unfolding shift_from
offer c best = if ltb_ℤ c.dist (near_at best (k - 1)).dist then shift_from (k - 1) c best else best

-- the loop over the references, from the one at `ri` on
unfoldable pub topk_from : QueryVector → ℕ → ℕ → List Reference → List Neighbor → List Neighbor
unfolding offer distance_from
topk_from q qi ri [] best = best
topk_from q qi ri (r ∷ references) best =
    let offered = offer (record { dist = distance q r.vector; index = ri }) best in
    topk_from q qi (ri + 1) references (if ri == qi then best else offered)

unfoldable pub topk_one : List Reference → ℕ → Option (List ℕ)
unfolding topk_from
topk_one references qi = get_elem? references qi >>= λ r.
    some (map (λ s. s.index) (topk_from r.vector qi 0 references no_near))

unfoldable pub exact_topk : List Reference → List ℕ → Option (List (List ℕ))
unfolding topk_one
exact_topk references [] = some []
exact_topk references (qi ∷ query_idx) =
    topk_one references qi >>= λ slot. exact_topk references query_idx >>= λ out. some (slot ∷ out)
