-- ===== src/Index/Best/Sorted.antt =====
-- The order of candidates, and insertion into a sorted list as the meaning of `insert_best_fast`.
use rinha_rust_tree.Prelude.{
  ◌≡◌, true, false, List, [], ◌∷◌, arith, inl, inr, if◌then◌else◌, Bool-cases, length, take, All,
}
use rinha_rust_tree.Prelude.Int.{◌≤ℤ◌}
use rinha_rust_tree.Index.Best.{Slot, k, candidate_before, before, insert_best_fast}

-- `s` need not give way to `t`.
abbrev pub Le : Slot → Slot → Type 0
Le s t = before t s ≡ false

pub Le-trans : (r s t : Slot) → Le r s → Le s t → Le r t
unfolding candidate_before
Le-trans r s t h g = ground arith

pub Le-before : (s t : Slot) → before s t ≡ true → Le s t
unfolding candidate_before
Le-before s t h = ground arith

pub Le-refl : (s : Slot) → Le s s
unfolding candidate_before
Le-refl s = ground arith

pub Le-dist : (s t : Slot) → Le s t → s.dist ≤ℤ t.dist
unfolding candidate_before
Le-dist s t h = ground arith

-- Insertion into a sorted list: behind every slot that it does not come before.
unfoldable pub sorted_insert : Slot → List Slot → List Slot
sorted_insert c [] = c ∷ []
sorted_insert c (s ∷ rest) = if before c s then c ∷ s ∷ rest else s ∷ sorted_insert c rest

abbrev pub IsSorted : List Slot → Type 0
IsSorted [] = Unit
IsSorted (s ∷ rest) = All (Le s) rest × IsSorted rest

All-Le-trans : (r s : Slot) (xs : List Slot) → Le r s → All (Le s) xs → All (Le r) xs
All-Le-trans r s [] h a = tt
All-Le-trans r s (x ∷ xs) h a = (Le-trans r s x h a.0, All-Le-trans r s xs h a.1)

All-Le-sorted_insert :
    (s c : Slot) (xs : List Slot) → Le s c → All (Le s) xs → All (Le s) (sorted_insert c xs)
unfolding sorted_insert
All-Le-sorted_insert s c [] h a = (h, tt)
All-Le-sorted_insert s c (x ∷ xs) h a = elim (Bool-cases (before c x)) [
  | inl e ↦ rw e (h, a)
  | inr e ↦ rw e (a.0, All-Le-sorted_insert s c xs h a.1)
]

pub sorted_insert-IsSorted :
    (c : Slot) (xs : List Slot) → IsSorted xs → IsSorted (sorted_insert c xs)
unfolding sorted_insert
sorted_insert-IsSorted c [] h = (tt, tt)
sorted_insert-IsSorted c (x ∷ xs) h = elim (Bool-cases (before c x)) [
  | inl e ↦ rw e ((Le-before c x e, All-Le-trans c x xs (Le-before c x e) h.0), h)
  | inr e ↦ rw e (All-Le-sorted_insert x c xs e h.0, sorted_insert-IsSorted c xs h.1)
]

-- What `c` comes before, it comes before all that follows.
pub before_mono : (c s t : Slot) → before c s ≡ true → Le s t → before c t ≡ true
unfolding candidate_before
before_mono c s t h l = ground arith

-- The array insertion, with its loop from the back, keeps the first K slots of the sorted list that
-- insertion from the front makes.
pub insert_best_fast-sorted_insert :
    (c : Slot) (best : List Slot)
    → length best ≡ k
    → IsSorted best
    → insert_best_fast c best ≡ take k (sorted_insert c best)
unfolding insert_best_fast sorted_insert
insert_best_fast-sorted_insert c (s0 ∷ s1 ∷ s2 ∷ s3 ∷ s4 ∷ []) n h =
    ground
      (arith, before_mono c s0 s1, before_mono c s1 s2, before_mono c s2 s3, before_mono c s3 s4)
insert_best_fast-sorted_insert c best n h = absurd (omega arith)
