-- ===== src/Index/Scheme/Neighbors.antt =====
-- src/index/partition_scheme.rs: what `topk_one` finds.
use mathlib.Core.List.{perm_middle}
use mathlib.Core.List.Perm
use mathlib.Core.HLevel.{×_prop, Π_prop}
use native.Mathlib.Bridge.{le_prop}
use rinha_rust_tree.Prelude.{
  ℕ, zero, suc, ◌+◌, ◌-◌, ◌<◌, ◌≡◌, refl, sym, ap, ◌∙◌, inl, inr, true, false, List, [], ◌∷◌, ◌++◌,
  some, map, arith, ◌==◌, if◌then◌else◌, Bool-cases, length, get_elem?, All,
}
use rinha_rust_tree.Prelude.Int.{ℤ, pos, negsuc, ◌≤ℤ◌, ◌<ℤ◌, ltb_ℤ, ◌+ℤ◌, ◌-ℤ◌}
use rinha_rust_tree.Prelude.Perms.{All-perm}
use rinha_rust_tree.Index.Table.{QueryVector}
use rinha_rust_tree.Index.Build.{Reference, dims}
use rinha_rust_tree.Index.Best.{
  Slot, k, i64_max, slot_at, candidate_before, before, insert_best_fast, insert_from,
}
use rinha_rust_tree.Index.Best.Nearest.{
  IsNearest, refused-IsNearest, insert_best_fast-IsNearest, IsNearest-perm,
}
use rinha_rust_tree.Index.Scheme.{
  Neighbor, far, near_at, wrap64, no_near, distance, distance_from, offer, shift_from, topk_from,
  topk_one,
}

-- a neighbour as a candidate of no label
abbrev pub as_slot : Neighbor → Slot
as_slot n = record { dist = n.dist; label = 0; index = n.index }

abbrev pub neighbor : QueryVector → ℕ → Reference → Neighbor
neighbor q ri r = record { dist = distance q r.vector; index = ri }

-- the references from the one at `ri` on, but that at `qi`
unfoldable pub others : QueryVector → ℕ → ℕ → List Reference → List Slot
others q qi ri [] = []
others q qi ri (r ∷ references) =
    let rest = others q qi (ri + 1) references in
    if ri == qi then rest else as_slot (neighbor q ri r) ∷ rest

-- an empty slot or a reference before `ri`
unfoldable pub Older : ℕ → Slot → Type 0
Older ri s = (s.dist ≤ℤ i64_max) × (s.dist <ℤ i64_max → s.index < ri)

wrap64-le : (z : ℤ) → (wrap64 z ≤ℤ i64_max)
wrap64-le (pos n) = ground arith
wrap64-le (negsuc n) = ground arith

distance_from-le :
    (n d : ℕ) (q v : QueryVector) (dist : ℤ)
    → (dist ≤ℤ i64_max)
    → (distance_from n d q v dist ≤ℤ i64_max)
unfolding distance_from ◌+ℤ◌ ◌-ℤ◌
distance_from-le zero d q v dist h = h
distance_from-le (suc n) d q v dist h = distance_from-le n (d + 1) q v _ (wrap64-le _)

-- `c` comes before `s` exactly when it is nearer.
abbrev ByDistance : Neighbor → Neighbor → Type 0
ByDistance c s = before (as_slot c) (as_slot s) ≡ ltb_ℤ c.dist s.dist

Older-ByDistance : (c s : Neighbor) → c.dist <ℤ i64_max → Older c.index (as_slot s) → ByDistance c s
unfolding candidate_before Older
Older-ByDistance c s h g = ground arith

offer-kept :
    (c s0 s1 s2 s3 s4 : Neighbor)
    → ByDistance c s0
    → ByDistance c s1
    → ByDistance c s2
    → ByDistance c s3
    → ByDistance c s4
    → ltb_ℤ c.dist s4.dist ≡ true
    → map as_slot (offer c (s0 ∷ s1 ∷ s2 ∷ s3 ∷ s4 ∷ []))
      ≡ insert_best_fast (as_slot c) (map as_slot (s0 ∷ s1 ∷ s2 ∷ s3 ∷ s4 ∷ []))
unfolding offer shift_from insert_best_fast insert_from
offer-kept c s0 s1 s2 s3 s4 e0 e1 e2 e3 e4 b4 = elim (Bool-cases (ltb_ℤ c.dist s3.dist)) [
  | inr b3 ↦ rw (e4, b4, e3, b3) refl
  | inl b3 ↦ elim (Bool-cases (ltb_ℤ c.dist s2.dist)) [
    | inr b2 ↦ rw (e4, b4, e3, b3, e2, b2) refl
    | inl b2 ↦ elim (Bool-cases (ltb_ℤ c.dist s1.dist)) [
      | inr b1 ↦ rw (e4, b4, e3, b3, e2, b2, e1, b1) refl
      | inl b1 ↦ elim (Bool-cases (ltb_ℤ c.dist s0.dist)) [
        | inr b0 ↦ rw (e4, b4, e3, b3, e2, b2, e1, b1, e0, b0) refl
        | inl b0 ↦ rw (e4, b4, e3, b3, e2, b2, e1, b1, e0, b0) refl
      ]
    ]
  ]
]

offer-insert_best_fast :
    (c : Neighbor) (best : List Neighbor)
    → length best ≡ k
    → All (Older c.index) (map as_slot best)
    → ltb_ℤ c.dist (near_at best (k - 1)).dist ≡ true
    → map as_slot (offer c best) ≡ insert_best_fast (as_slot c) (map as_slot best)
unfolding Older
offer-insert_best_fast c (s0 ∷ s1 ∷ s2 ∷ s3 ∷ s4 ∷ []) n (h0, (h1, (h2, (h3, (h4, _))))) b =
    let near : c.dist <ℤ i64_max = ground (arith) in
    offer-kept c s0 s1 s2 s3 s4 (Older-ByDistance c s0 near h0) (Older-ByDistance c s1 near h1)
      (Older-ByDistance c s2 near h2) (Older-ByDistance c s3 near h3)
      (Older-ByDistance c s4 near h4) b
offer-insert_best_fast c best n h b = absurd (omega arith)

pub Older-prop : (ri : ℕ) (s : Slot) → IsProp (Older ri s)
unfolding Older
Older-prop ri s = ×_prop le_prop (Π_prop (λ _. le_prop))

Older-later : (ri : ℕ) (pool : List Slot) → All (Older ri) pool → All (Older (ri + 1)) pool
unfolding Older
Older-later ri [] h = tt
Older-later ri (s ∷ pool) h = ((h.0.0, λ g. omega (arith, h.0.1 g)), Older-later ri pool h.1)

pub All-first {ℓ} : (P : Slot → Type ℓ) (xs ys : List Slot) → All P (xs ++ ys) → All P xs
All-first P [] ys h = tt
All-first P (x ∷ xs) ys h = (h.0, All-first P xs ys h.1)

length-map-as_slot : (best : List Neighbor) → length (map as_slot best) ≡ length best
length-map-as_slot [] = refl
length-map-as_slot (s ∷ best) = ap suc (length-map-as_slot best)

slot_at-as_slot :
    (best : List Neighbor)
    → length best ≡ k
    → (slot_at (map as_slot best) 4).dist ≡ (near_at best 4).dist
slot_at-as_slot (s0 ∷ s1 ∷ s2 ∷ s3 ∷ s4 ∷ []) n = refl
slot_at-as_slot best n = absurd (omega arith)

module _ (best : List Neighbor) (pool : List Slot) (c : Neighbor)
    (n : IsNearest false (map as_slot best) pool) (older : All (Older c.index) pool) where
  size_lem : length best ≡ k
  size_lem = sym (length-map-as_slot best) ∙ n.size

  offer-IsNearest : IsNearest false (map as_slot (offer c best)) (as_slot c ∷ pool)
  offer-IsNearest = elim (Bool-cases (ltb_ℤ c.dist (near_at best (k - 1)).dist)) [
    | inl b ↦
        let kept =
          All-first (Older c.index) (map as_slot best) n.rest
            (All-perm (Older c.index) (Older-prop c.index) n.same older) in
        rw (offer-insert_best_fast c best size_lem kept b)
          (insert_best_fast-IsNearest false (as_slot c) n)
    | inr b ↦
        let same : offer c best ≡ best = unfold offer in rw b refl in
        let last = slot_at-as_slot best size_lem in
        rw same (refused-IsNearest false (as_slot c) n (rw last (ground arith)))
  ]

topk_from-IsNearest :
    (q : QueryVector) (qi ri : ℕ) (references : List Reference) (best : List Neighbor)
    (pool : List Slot)
    → IsNearest false (map as_slot best) pool
    → All (Older ri) pool
    → IsNearest false
        (map as_slot (topk_from q qi ri references best))
        (others q qi ri references ++ pool)
unfolding topk_from others
topk_from-IsNearest q qi ri [] best pool n older = n
topk_from-IsNearest q qi ri (r ∷ references) best pool n older = elim (Bool-cases (ri == qi)) [
  | inl e ↦
      rw e (topk_from-IsNearest q qi (ri + 1) references best pool n (Older-later ri pool older))
  | inr e ↦
      let c = neighbor q ri r in
      let older' : All (Older (ri + 1)) (as_slot c ∷ pool) = (
        unfold Older in
            (distance_from-le dims 0 q r.vector (pos 0) (omega arith), λ _. omega arith),
        Older-later ri pool older,
      ) in
      rw e (
        IsNearest-perm false (perm_middle (others q qi (ri + 1) references) pool) (
          topk_from-IsNearest q qi (ri + 1) references (offer c best) (as_slot c ∷ pool)
            (offer-IsNearest best pool c n older) older'))
]

no_near-IsNearest : IsNearest false (map as_slot no_near) (map as_slot no_near)
unfolding candidate_before
no_near-IsNearest = record {
  size = refl;
  sorted = ground arith;
  rest = [];
  same = Perm.refl _;
  farther = tt;
}

-- For a query among the references, `topk_one` finds K that are nearest, by distance, among the other
-- references and the K empty slots.
pub topk_one-IsNearest :
    (references : List Reference) (qi : ℕ) (r : Reference)
    → get_elem? references qi ≡ some r
    → (best : List Neighbor) × (topk_one references qi ≡ some (map (λ s. s.index) best))
      × IsNearest false (map as_slot best) (others r.vector qi 0 references ++ map as_slot no_near)
unfolding topk_one
topk_one-IsNearest references qi r e =
    let empty : Older 0 (as_slot far) = unfold Older in (omega arith, λ g. absurd (omega arith)) in
    (
      topk_from r.vector qi 0 references no_near,
      rw e refl,
      topk_from-IsNearest r.vector qi 0 references no_near (map as_slot no_near) no_near-IsNearest
          (empty, (empty, (empty, (empty, (empty, tt))))),
    )
