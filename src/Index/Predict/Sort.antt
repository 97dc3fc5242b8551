-- ===== src/Index/Predict/Sort.antt =====
-- `sort_partition_entries` orders the entries by their bounds and keeps each of them.
use mathlib.Core.List.{Perm, perm_middle, reverse, reverse-cons, reverse_perm, append-nil}
use mathlib.Core.List.Perm
use rinha_rust_tree.Prelude.{
  inl, inr, List, [], ◌∷◌, ◌++◌, arith, leb, Bool-cases, length, All, All-append,
}
use rinha_rust_tree.Prelude.Int.{ℤ, ◌≤ℤ◌, ltb_ℤ}
use rinha_rust_tree.Index.Predict.{Entry, sift_down, insertion_sort, sort_partition_entries}

abbrev pub Ascending : List Entry → Type 0
Ascending [] = Unit
Ascending (e ∷ entries) = All (λ f. e.bound ≤ℤ f.bound) entries × Ascending entries

abbrev Descending : List Entry → Type 0
Descending [] = Unit
Descending (e ∷ entries) = All (λ f. f.bound ≤ℤ e.bound) entries × Descending entries

sift_down-perm : (e : Entry) (prefix : List Entry) → Perm (sift_down e prefix) (e ∷ prefix)
unfolding sift_down
sift_down-perm e [] = Perm.refl _
sift_down-perm e (p ∷ prefix) = elim (Bool-cases (ltb_ℤ e.bound p.bound)) [
  | inl h ↦ rw h (Perm.trans (Perm.cons p (sift_down-perm e prefix)) (Perm.swap e p prefix))
  | inr h ↦ rw h (Perm.refl _)
]

All-le_trans :
    (x y : ℤ) (prefix : List Entry)
    → x ≤ℤ y
    → All (λ f. f.bound ≤ℤ x) prefix
    → All (λ f. f.bound ≤ℤ y) prefix
All-le_trans x y [] h a = tt
All-le_trans x y (p ∷ prefix) h a = (omega (arith, a.0), All-le_trans x y prefix h a.1)

All-sift_down :
    (x : ℤ) (e : Entry) (prefix : List Entry)
    → e.bound ≤ℤ x
    → All (λ f. f.bound ≤ℤ x) prefix
    → All (λ f. f.bound ≤ℤ x) (sift_down e prefix)
unfolding sift_down
All-sift_down x e [] h a = (h, tt)
All-sift_down x e (p ∷ prefix) h a = elim (Bool-cases (ltb_ℤ e.bound p.bound)) [
  | inl b ↦ rw b (a.0, All-sift_down x e prefix h a.1)
  | inr b ↦ rw b (h, a)
]

sift_down-Descending :
    (e : Entry) (prefix : List Entry) → Descending prefix → Descending (sift_down e prefix)
unfolding sift_down
sift_down-Descending e [] d = (tt, tt)
sift_down-Descending e (p ∷ prefix) d = elim (Bool-cases (ltb_ℤ e.bound p.bound)) [
  | inl b ↦
      rw b (All-sift_down p.bound e prefix (ground arith) d.0, sift_down-Descending e prefix d.1)
  | inr b ↦
      let le : p.bound ≤ℤ e.bound = ground arith in
      rw b ((le, All-le_trans p.bound e.bound prefix le d.0), d)
]

All-reverse {ℓ} : (P : Entry → Type ℓ) (xs : List Entry) → All P xs → All P (reverse xs)
All-reverse P [] a = a
All-reverse P (x ∷ xs) a =
    rw reverse-cons (All-append P (reverse xs) (x ∷ []) (All-reverse P xs a.1) (a.0, tt))

Ascending-concat :
    (xs : List Entry) (e : Entry)
    → Ascending xs
    → All (λ f. f.bound ≤ℤ e.bound) xs
    → Ascending (xs ++ e ∷ [])
Ascending-concat [] e h a = (tt, tt)
Ascending-concat (x ∷ xs) e h a =
    (All-append _ xs (e ∷ []) h.0 (a.0, tt), Ascending-concat xs e h.1 a.1)

Ascending-reverse : (xs : List Entry) → Descending xs → Ascending (reverse xs)
Ascending-reverse [] d = tt
Ascending-reverse (x ∷ xs) d =
    rw reverse-cons
      (Ascending-concat (reverse xs) x (Ascending-reverse xs d.1) (All-reverse _ xs d.0))

pub insertion_sort_lem :
    (prefix entries : List Entry)
    → Descending prefix
    → Ascending (insertion_sort prefix entries)
      × Perm (insertion_sort prefix entries) (prefix ++ entries)
unfolding insertion_sort
insertion_sort_lem prefix [] d = (Ascending-reverse prefix d, rw append-nil (reverse_perm prefix))
insertion_sort_lem prefix (e ∷ entries) d =
    let (ordered, same) =
      insertion_sort_lem (sift_down e prefix) entries (sift_down-Descending e prefix d) in
    (
      ordered,
      Perm.trans same (
          Perm.trans (Perm.append_right entries (sift_down-perm e prefix))
            (Perm.symm (perm_middle prefix entries))),
    )

-- What the standard library documents of a sort by the bound.
abbrev pub IsSortByBound : (List Entry → List Entry) → Type 0
IsSortByBound sort = (entries : List Entry) → Ascending (sort entries) × Perm (sort entries) entries

-- Short lists go through the insertion sort, long ones through the library's: both order the
-- entries by the bound and lose none.
pub sort_partition_entries_lem :
    (sort_unstable : List Entry → List Entry)
    → IsSortByBound sort_unstable
    → IsSortByBound (sort_partition_entries sort_unstable)
unfolding sort_partition_entries
sort_partition_entries_lem sort_unstable h entries = elim (Bool-cases (leb (length entries) 32)) [
  | inl short ↦ rw short (insertion_sort_lem [] entries tt)
  | inr long ↦ rw long (h entries)
]
