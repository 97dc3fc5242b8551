-- ===== src/Index/Scheme/Found.antt =====
-- src/index/partition_scheme.rs: the neighbours of the sampled references are references.
use rinha_rust_tree.Prelude.{
  ℕ, zero, suc, ◌+◌, ◌^◌, ◌<◌, ◌≤◌, ◌≡◌, refl, ap, inl, inr, List, [], ◌∷◌, ◌++◌, map, arith, ltb,
  ◌==◌, Bool-cases, length, All, All-append,
}
use rinha_rust_tree.Prelude.Int.{pos, ◌<ℤ◌}
use rinha_rust_tree.Prelude.Perms.{All-perm}
use rinha_rust_tree.Index.Table.{QueryVector}
use rinha_rust_tree.Index.Build.{Reference, dims}
use rinha_rust_tree.Index.Scheme.{
  Neighbor, far, no_near, distance, topk_one, exact_topk, stepped, sample_indices,
}
use rinha_rust_tree.Index.Scheme.Neighbors.{
  as_slot, others, Older, Older-prop, All-first, topk_one-IsNearest,
}
use rinha_rust_tree.Index.Scheme.Known.{
  IsI16, distance_from-lt, count_known, count_known-append, Known, nearest-Known,
}
use rinha_rust_tree.Index.Scheme.Returns.{Returns, return, bind-Returns, get_elem?-Returns}

-- The vectors are of i16.
abbrev pub AreI16 : List Reference → Type 0
AreI16 references = All (λ r. IsI16 r.vector) references

abbrev pub Indices : List Reference → List ℕ → Type 0
Indices references = All (λ ni. ni < length references)

module _ (q : QueryVector) (hq : IsI16 q) (qi : ℕ) where
  near : (r : Reference) → IsI16 r.vector → distance q r.vector <ℤ pos (2 ^ 62)
  near r h = distance_from-lt dims 0 q r.vector 0 hq h (omega arith)

  -- Behind the query, every reference is another.
  count_known-behind :
      (ri : ℕ) (references : List Reference)
      → AreI16 references
      → qi < ri
      → length references ≤ count_known (others q qi ri references)
  unfolding others count_known
  count_known-behind ri [] h behind = omega arith
  count_known-behind ri (r ∷ references) h behind =
      ground (arith, near r h.0, count_known-behind (ri + 1) references h.1 (omega arith))

  count_known-others :
      (ri : ℕ) (references : List Reference)
      → AreI16 references
      → length references ≤ count_known (others q qi ri references) + 1
  unfolding others count_known
  count_known-others ri [] h = omega arith
  count_known-others ri (r ∷ references) h = elim (Bool-cases (ri == qi)) [
    | inl e ↦ rw e (omega (arith, count_known-behind (ri + 1) references h.1 (ground arith)))
    | inr e ↦ rw e (ground (arith, near r h.0, count_known-others (ri + 1) references h.1))
  ]

  others-Older :
      (ri : ℕ) (references : List Reference)
      → AreI16 references
      → All (Older (ri + length references)) (others q qi ri references)
  unfolding others Older
  others-Older ri [] h = tt
  others-Older ri (r ∷ references) h =
      let size : ri + suc (length references) ≡ ri + 1 + length references = omega arith in
      let rest : All (Older (ri + suc (length references))) (others q qi (ri + 1) references) =
        rw size (others-Older (ri + 1) references h.1) in
      elim (Bool-cases (ri == qi)) [
        | inl e ↦ rw e rest
        | inr e ↦ rw e ((omega (arith, near r h.0), λ g. omega arith), rest)
      ]

All-index :
    (n : ℕ) (best : List Neighbor)
    → All (Older n) (map as_slot best)
    → All Known (map as_slot best)
    → All (λ i. i < n) (map (λ s. s.index) best)
unfolding Older Known
All-index n [] h g = tt
All-index n (s ∷ best) h g = (h.0.1 g.0, All-index n best h.1 g.1)

module _ (references : List Reference) (i16 : AreI16 references)
    (enough : 6 ≤ length references) where
  pub topk_one-Returns :
      (qi : ℕ) → qi < length references → Returns (Indices references) (topk_one references qi)
  unfolding Older
  topk_one-Returns qi h =
      let query = get_elem?-Returns references qi h i16 in
      let q = query.value.vector in
      let (best, found, nearest) = topk_one-IsNearest references qi query.value query.same in
      let pool = others q qi 0 references ++ map as_slot no_near in
      let known = nearest-Known (map as_slot best) pool nearest (
        omega (
          arith,
          count_known-append (others q qi 0 references) (map as_slot no_near),
          count_known-others q query.holds qi 0 references i16,
        )) in
      let n = length references in
      let start : 0 + n ≡ n = omega arith in
      let empty : Older n (as_slot far) = (omega arith, λ g. absurd (omega arith)) in
      let older : All (Older n) pool =
        All-append (Older n) (others q qi 0 references) (map as_slot no_near)
          (rw start at (others-Older q query.holds qi 0 references i16))
          (empty, (empty, (empty, (empty, (empty, tt))))) in
      let best_older =
        All-first (Older n) (map as_slot best) nearest.rest
          (All-perm (Older n) (Older-prop n) nearest.same older) in
      record {
        value = map (λ s. s.index) best;
        same = found;
        holds = All-index n best best_older known;
      }

  pub exact_topk-Returns :
      (query_idx : List ℕ)
      → Indices references query_idx
      → Returns
          (λ out. (length out ≡ length query_idx) × All (Indices references) out)
          (exact_topk references query_idx)
  unfolding exact_topk
  exact_topk-Returns [] h = return [] (refl, tt)
  exact_topk-Returns (qi ∷ query_idx) h =
      bind-Returns _ _ (topk_one-Returns qi h.0) (λ slot e inside.
        bind-Returns _ _ (exact_topk-Returns query_idx h.1)
          (λ out e' rest. return (slot ∷ out) (ap suc rest.0, (inside, rest.1))))

stepped-All : (count step n i : ℕ) → All (λ j. j < n) (stepped count step n i)
unfolding stepped
stepped-All zero step n i = tt
stepped-All (suc count) step n i = elim (Bool-cases (ltb i n)) [
  | inl b ↦ rw b (ground arith, stepped-All count step n (i + step))
  | inr b ↦ rw b tt
]

pub sample_indices-All : (n max_samples : ℕ) → All (λ j. j < n) (sample_indices n max_samples)
unfolding sample_indices
sample_indices-All n max_samples = stepped-All _ _ n 0
