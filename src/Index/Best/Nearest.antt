-- ===== src/Index/Best/Nearest.antt =====
-- What the K slots hold after candidates were offered: K nearest ones, in order, each used once.
use native.Mathlib.Bridge.{le_prop}
use mathlib.Core.Logic.{∥∥₁_elim}
use mathlib.Core.List.{Perm, perm_middle, append_assoc, perm_append_comm}
use mathlib.Core.List.Perm
use rinha_rust_tree.Prelude.{
  ℕ, zero, suc, ◌-◌, ◌≡◌, refl, Bool, true, false, List, [], ◌∷◌, ◌++◌, arith, inl, inr, Bool-cases,
  length, take, All, All-append,
}
use rinha_rust_tree.Prelude.Perms.{All-Permᴰ}
use rinha_rust_tree.Prelude.Int.{ℤ, ◌≤ℤ◌, ◌<ℤ◌}
use rinha_rust_tree.Index.Best.{
  Slot, k, slot_at, kth_dist, candidate_before, before, insert_best_fast, no_best, Tracked,
  insert_best, insert_from, insert_tracked_from,
}
use rinha_rust_tree.Index.Best.Sorted.{
  Le, Le-trans, Le-dist, sorted_insert, IsSorted, sorted_insert-IsSorted, before_mono,
  insert_best_fast-sorted_insert,
}

-- `r` may be left out where `s` is the last slot kept: with `exact` ties are broken by the index.
abbrev pub Past : Bool → Slot → Slot → Type 0
Past true s r = Le s r
Past false s r = s.dist ≤ℤ r.dist

pub Past-Le : (exact : Bool) (s r : Slot) → Le s r → Past exact s r
Past-Le true s r h = h
Past-Le false s r h = Le-dist s r h

pub Past-lt : (exact : Bool) (s r : Slot) → s.dist <ℤ r.dist → Past exact s r
unfolding candidate_before
Past-lt true s r h = ground arith
Past-lt false s r h = omega arith

Past-trans : (exact : Bool) (r s t : Slot) → Le r s → Past exact s t → Past exact r t
Past-trans true r s t h g = Le-trans r s t h g
Past-trans false r s t h g = omega (arith, Le-dist r s h)

-- The slots `best` are K nearest candidates of `pool`.
pub record IsNearest (exact : Bool) (best pool : List Slot) : Type 0 where
  pub size : length best ≡ k
  pub sorted : IsSorted best
  pub rest : List Slot
  pub same : Perm (best ++ rest) pool
  pub farther : All (Past exact (slot_at best 4)) rest

pub no_best-IsNearest : (exact : Bool) → IsNearest exact no_best no_best
unfolding candidate_before
no_best-IsNearest exact = record {
  size = refl;
  sorted = ground arith;
  rest = [];
  same = Perm.refl no_best;
  farther = tt;
}

sorted_insert-perm : (c : Slot) (xs : List Slot) → Perm (sorted_insert c xs) (c ∷ xs)
unfolding sorted_insert
sorted_insert-perm c [] = Perm.refl _
sorted_insert-perm c (x ∷ xs) = elim (Bool-cases (before c x)) [
  | inl e ↦ rw e (Perm.refl _)
  | inr e ↦ rw e (Perm.trans (Perm.cons x (sorted_insert-perm c xs)) (Perm.swap c x xs))
]

-- A candidate that is kept pushes the last slot out.
kept-last :
    (c : Slot) (best : List Slot)
    → length best ≡ k
    → IsSorted best
    → before c (slot_at best 4) ≡ true
    → sorted_insert c best ≡ take k (sorted_insert c best) ++ slot_at best 4 ∷ []
unfolding sorted_insert
kept-last c (s0 ∷ s1 ∷ s2 ∷ s3 ∷ s4 ∷ []) n h b =
    ground
      (arith, before_mono c s0 s1, before_mono c s1 s2, before_mono c s2 s3, before_mono c s3 s4)
kept-last c best n h b = absurd (omega arith)

length-kept :
    (c : Slot) (best : List Slot) → length best ≡ k → length (take k (sorted_insert c best)) ≡ k
unfolding sorted_insert
length-kept c (s0 ∷ s1 ∷ s2 ∷ s3 ∷ s4 ∷ []) n = ground arith
length-kept c best n = absurd (omega arith)

module _ {ℓ} {A : Type 0} (P : A → Type ℓ) where
  All-init : (xs : List A) (x : A) → All P (xs ++ x ∷ []) → All P xs
  All-init [] x h = tt
  All-init (y ∷ xs) x h = (h.0, All-init xs x h.1)

IsSorted-init : (xs : List Slot) (s : Slot) → IsSorted (xs ++ s ∷ []) → IsSorted xs
IsSorted-init [] s h = tt
IsSorted-init (x ∷ xs) s h = (All-init (Le x) xs s h.0, IsSorted-init xs s h.1)

-- In a sorted list of six the fifth slot need not give way to the sixth.
fifth-Le :
    (best : List Slot) (s : Slot)
    → length best ≡ k
    → IsSorted (best ++ s ∷ [])
    → Le (slot_at best 4) s
fifth-Le (s0 ∷ s1 ∷ s2 ∷ s3 ∷ s4 ∷ []) s n h = h.1.1.1.1.0.0
fifth-Le best s n h = absurd (omega arith)

module _ (exact : Bool) where
  All-Past : (r s : Slot) (xs : List Slot) → Le r s → All (Past exact s) xs → All (Past exact r) xs
  All-Past r s [] h a = tt
  All-Past r s (x ∷ xs) h a = (Past-trans exact r s x h a.0, All-Past r s xs h a.1)

  -- A candidate that does not come before the last slot is past it.
  pub refused-IsNearest :
      {best pool : List Slot} (c : Slot)
      → IsNearest exact best pool
      → Past exact (slot_at best 4) c
      → IsNearest exact best (c ∷ pool)
  refused-IsNearest {best} c n p = record {
    size = n.size;
    sorted = n.sorted;
    rest = c ∷ n.rest;
    same = Perm.trans (perm_middle best n.rest) (Perm.cons c n.same);
    farther = (p, n.farther);
  }

  kept-IsNearest :
      {best pool : List Slot} (c : Slot)
      → IsNearest exact best pool
      → before c (slot_at best 4) ≡ true
      → IsNearest exact (take k (sorted_insert c best)) (c ∷ pool)
  kept-IsNearest {best} c n b =
      let last = slot_at best 4 in
      let kept = take k (sorted_insert c best) in
      let whole = kept-last c best n.size n.sorted b in
      let in_order : IsSorted (kept ++ last ∷ []) =
        rw whole at (sorted_insert-IsSorted c best n.sorted) in
      let swapped : Perm ((kept ++ last ∷ []) ++ n.rest) ((c ∷ best) ++ n.rest) =
        Perm.append_right n.rest (rw whole at (sorted_insert-perm c best)) in
      let closer = fifth-Le kept last (length-kept c best n.size) in_order in
      record {
        size = length-kept c best n.size;
        sorted = IsSorted-init kept last in_order;
        rest = last ∷ n.rest;
        same =
            Perm.trans (rw (append_assoc kept (last ∷ []) n.rest) at swapped) (Perm.cons c n.same);
        farther = (Past-Le exact _ last closer, All-Past _ last n.rest closer n.farther);
      }

  -- Slots that are K nearest of a pool are, when a candidate is offered, K nearest of the pool
  -- with the candidate.
  pub insert_best_fast-IsNearest :
      {best pool : List Slot} (c : Slot)
      → IsNearest exact best pool
      → IsNearest exact (insert_best_fast c best) (c ∷ pool)
  insert_best_fast-IsNearest {best} c n = elim (Bool-cases (before c (slot_at best 4))) [
    | inl b ↦ rw (insert_best_fast-sorted_insert c best n.size n.sorted) (kept-IsNearest c n b)
    | inr b ↦
        let same : insert_best_fast c best ≡ best = unfold insert_best_fast in rw b in
        rw same (refused-IsNearest c n (Past-Le exact _ c b))
  ]

  -- Candidates that are not looked at because they are past the last slot.
  pub skipped-IsNearest :
      {best pool : List Slot} (skipped : List Slot)
      → IsNearest exact best pool
      → All (Past exact (slot_at best 4)) skipped
      → IsNearest exact best (skipped ++ pool)
  skipped-IsNearest {best} skipped n p = record {
    size = n.size;
    sorted = n.sorted;
    rest = n.rest ++ skipped;
    same =
        Perm.trans (rw (← append_assoc best n.rest skipped) (Perm.append_right skipped n.same))
          (perm_append_comm _ skipped);
    farther = All-append _ n.rest skipped n.farther p;
  }

  pub IsNearest-perm :
      {best pool pool' : List Slot}
      → Perm pool pool'
      → IsNearest exact best pool
      → IsNearest exact best pool'
  IsNearest-perm p n = record {
    size = n.size;
    sorted = n.sorted;
    rest = n.rest;
    same = Perm.trans n.same p;
    farther = n.farther;
  }

loosen : (s : Slot) (xs : List Slot) → All (Past true s) xs → All (Past false s) xs
loosen s [] a = tt
loosen s (x ∷ xs) a = (Le-dist s x a.0, loosen s xs a.1)

-- K slots that are nearest when ties are broken by the index are nearest by distance.
pub IsNearest-by_distance :
    {best pool : List Slot} → IsNearest true best pool → IsNearest false best pool
IsNearest-by_distance {best} n = record {
  size = n.size;
  sorted = n.sorted;
  rest = n.rest;
  same = n.same;
  farther = loosen (slot_at best 4) n.rest n.farther;
}

-- The insertion that also moves the partition keys makes the same slots.
insert_tracked_from-best :
    (p : ℕ) (c : Slot) (key : ℕ) (t : Tracked)
    → (insert_tracked_from p c key t).best ≡ insert_from p c t.best
unfolding insert_tracked_from insert_from
insert_tracked_from-best zero c key t = refl
insert_tracked_from-best (suc p) c key t = elim (Bool-cases (before c (slot_at t.best p))) [
  | inl b ↦ rw b (insert_tracked_from-best p c key _)
  | inr b ↦ rw b
]

-- The insertion that keeps partition keys leaves the same slots as the fast one.
pub insert_best-insert_best_fast :
    (c : Slot) (key : ℕ) (t : Tracked) → (insert_best c key t).best ≡ insert_best_fast c t.best
unfolding insert_best insert_best_fast
insert_best-insert_best_fast c key t = elim (Bool-cases (before c (slot_at t.best (k - 1)))) [
  | inl b ↦ rw b (insert_tracked_from-best 4 c key t)
  | inr b ↦ rw b
]

All-fifth {ℓ} :
    (P : Slot → Type ℓ) (best rest : List Slot)
    → length best ≡ k
    → All P (best ++ rest)
    → P (slot_at best 4)
All-fifth P (s0 ∷ s1 ∷ s2 ∷ s3 ∷ s4 ∷ []) rest n h = h.1.1.1.1.0
All-fifth P best rest n h = absurd (omega arith)

-- A bound on the distances of the pool is one on the last slot.
pub kth_dist-ge :
    {exact : Bool} {best pool : List Slot} (lo : ℤ)
    → IsNearest exact best pool
    → All (λ s. lo ≤ℤ s.dist) pool
    → lo ≤ℤ kth_dist best
kth_dist-ge {best} lo n h =
    ∥∥₁_elim n.same le_prop
      (λ p. All-fifth (λ s. lo ≤ℤ s.dist) best n.rest n.size (All-Permᴰ (λ s. lo ≤ℤ s.dist) p h))

-- The last slot never gets farther.
pub kth_dist-insert_best_fast :
    {exact : Bool} {best pool : List Slot} (c : Slot)
    → IsNearest exact best pool
    → kth_dist (insert_best_fast c best) ≤ℤ kth_dist best
kth_dist-insert_best_fast {best} c n = elim (Bool-cases (before c (slot_at best 4))) [
  | inl b ↦ rw (insert_best_fast-sorted_insert c best n.size n.sorted) (
      Le-dist (slot_at (take k (sorted_insert c best)) 4) (slot_at best 4) (
        fifth-Le (take k (sorted_insert c best)) (slot_at best 4) (length-kept c best n.size)
          (rw (kept-last c best n.size n.sorted b) at (sorted_insert-IsSorted c best n.sorted))))
  | inr b ↦
      let same : insert_best_fast c best ≡ best = unfold insert_best_fast in rw b in
      rw same (omega arith)
]
