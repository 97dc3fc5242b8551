-- ===== src/Index/Scheme/Known.antt =====
-- src/index/partition_scheme.rs: the neighbours that `topk_one` finds are references.
use mathlib.Core.Logic.{∥∥₁_elim}
use mathlib.Core.List.{Permᴰ}
use native.Mathlib.Nat.{mul-le-mul}
use native.Mathlib.Bridge.{le_prop}
use rinha_rust_tree.Prelude.{
  ℕ, zero, suc, ◌+◌, ◌*◌, ◌^◌, ◌<◌, ◌≤◌, ◌≡◌, refl, ap, ◌∙◌, inl, inr, false, List, [], ◌∷◌, ◌++◌,
  arith, if◌then◌else◌, Bool-cases, length, All,
}
use rinha_rust_tree.Prelude.Int.{ℤ, pos, ◌≤ℤ◌, ◌<ℤ◌, ltb_ℤ, ◌+ℤ◌, ◌-ℤ◌, pos_part, neg_part}
use rinha_rust_tree.Index.Words.{square}
use rinha_rust_tree.Index.Table.{QueryVector, dim}
use rinha_rust_tree.Index.Reader.RoundTrip.{Fits16}
use rinha_rust_tree.Index.Best.{Slot, i64_max}
use rinha_rust_tree.Index.Best.Sorted.{Le-dist}
use rinha_rust_tree.Index.Best.Nearest.{IsNearest, Past}
use rinha_rust_tree.Index.Scheme.{distance_from, wrap64}

abbrev pub IsI16 : QueryVector → Type 0
IsI16 v = All Fits16 v

pub dim-Fits16 : (v : QueryVector) (d : ℕ) → IsI16 v → Fits16 (dim v d)
dim-Fits16 [] d h = (omega arith, omega arith)
dim-Fits16 (x ∷ v) zero h = h.0
dim-Fits16 (x ∷ v) (suc d) h = dim-Fits16 v d h.1

square-le : (a b : ℤ) → Fits16 a → Fits16 b → square (a -ℤ b) ≤ 65_535 * 65_535
unfolding ◌-ℤ◌
square-le a b h g =
    let size = pos_part (a -ℤ b) + neg_part (a -ℤ b) in
    let small : size ≤ 65_535 = ground arith in mul-le-mul small small

add-pos : (a b : ℕ) → pos a +ℤ pos b ≡ pos (a + b)
unfolding ◌+ℤ◌
add-pos a b = ground arith

wrap64-small : (n : ℕ) → n < 2 ^ 62 → wrap64 (pos n) ≡ pos n
wrap64-small n h = ground arith

pub distance_from-lt :
    (n d : ℕ) (q v : QueryVector) (dist : ℕ)
    → IsI16 q
    → IsI16 v
    → dist + n * 2 ^ 32 < 2 ^ 62
    → distance_from n d q v (pos dist) <ℤ pos (2 ^ 62)
unfolding distance_from
distance_from-lt zero d q v dist hq hv small = omega arith
distance_from-lt (suc n) d q v dist hq hv small =
    let sq = square (dim q d -ℤ dim v d) in
    let le = square-le (dim q d) (dim v d) (dim-Fits16 q d hq) (dim-Fits16 v d hv) in
    let same : wrap64 (pos dist +ℤ pos sq) ≡ pos (dist + sq) =
      ap wrap64 (add-pos dist sq) ∙ wrap64-small (dist + sq) (omega (arith, le, small)) in
    rw same (distance_from-lt n (d + 1) q v (dist + sq) hq hv (omega (arith, le, small)))

-- How many slots hold a reference.
unfoldable pub count_known : List Slot → ℕ
count_known [] = 0
count_known (s ∷ slots) =
    let rest = count_known slots in if ltb_ℤ s.dist i64_max then suc rest else rest

pub count_known-append :
    (xs ys : List Slot) → count_known (xs ++ ys) ≡ count_known xs + count_known ys
unfolding count_known
count_known-append [] ys = omega arith
count_known-append (x ∷ xs) ys = ground (arith, count_known-append xs ys)

count_known-le : (xs : List Slot) → count_known xs ≤ length xs
unfolding count_known
count_known-le [] = omega arith
count_known-le (x ∷ xs) = ground (arith, count_known-le xs)

count_known-Permᴰ : {xs ys : List Slot} → Permᴰ xs ys → count_known ys ≤ count_known xs
unfolding count_known
count_known-Permᴰ Permᴰ.nil = omega arith
count_known-Permᴰ (Permᴰ.cons e p) = rw e (ground (arith, count_known-Permᴰ p))
count_known-Permᴰ (Permᴰ.swap e g) = rw (e, g) (ground arith)
count_known-Permᴰ (Permᴰ.trans p q) = omega (arith, count_known-Permᴰ p, count_known-Permᴰ q)

no_known :
    (rest : List Slot) (last : Slot)
    → i64_max ≤ℤ last.dist
    → All (Past false last) rest
    → count_known rest ≡ 0
unfolding count_known
no_known [] last h past = refl
no_known (s ∷ rest) last h past = ground (arith, no_known rest last h past.1)

unfoldable pub Known : Slot → Type 0
Known s = s.dist <ℤ i64_max

pub nearest-Known :
    (best pool : List Slot) → IsNearest false best pool → 5 ≤ count_known pool → All Known best
unfolding count_known Known
nearest-Known (s0 ∷ s1 ∷ s2 ∷ s3 ∷ s4 ∷ []) pool n five =
    elim (Bool-cases (ltb_ℤ s4.dist i64_max)) [
      | inl b ↦
          let l0 = Le-dist s0 s4 n.sorted.0.1.1.1.0 in
          let l1 = Le-dist s1 s4 n.sorted.1.0.1.1.0 in
          let l2 = Le-dist s2 s4 n.sorted.1.1.0.1.0 in
          let l3 = Le-dist s3 s4 n.sorted.1.1.1.0.0 in
          let last : s4.dist <ℤ i64_max = ground arith in
          (
            omega (arith, l0, last),
            (
              omega (arith, l1, last),
              (omega (arith, l2, last), (omega (arith, l3, last), (last, tt))),
            ),
          )
      | inr b ↦
          let none_left = no_known n.rest s4 (ground arith) n.farther in
          let most : count_known pool ≤ count_known ((s0 ∷ s1 ∷ s2 ∷ s3 ∷ s4 ∷ []) ++ n.rest) =
            ∥∥₁_elim n.same le_prop (λ p. count_known-Permᴰ p) in
          let few : count_known (s0 ∷ s1 ∷ s2 ∷ s3 ∷ s4 ∷ []) ≤ 4 =
            let alone = no_known (s4 ∷ []) s4 (ground arith) (omega arith, tt) in
            let first = s0 ∷ s1 ∷ s2 ∷ s3 ∷ [] in
            omega (arith, count_known-append first (s4 ∷ []), count_known-le first, alone) in
          absurd (
            omega (
              arith,
              most,
              few,
              five,
              none_left,
              count_known-append (s0 ∷ s1 ∷ s2 ∷ s3 ∷ s4 ∷ []) n.rest,
            ))
    ]
nearest-Known best pool n five = absurd (omega (arith, n.size))
