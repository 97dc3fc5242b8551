-- ===== src/Tests/Scheme.antt =====
-- src/index/partition_scheme.rs: learning on sixteen references, with scores in thousandths.
use mathlib.Core.List.Perm
use rinha_rust_tree.Prelude.{
  ℕ, zero, suc, ◌+◌, ◌-◌, ◌*◌, ◌/◌, ◌^◌, max, ltb, ◌≡◌, refl, true, false, List, [], ◌∷◌, ◌++◌, map,
  some, arith, replicate, All, All-append, ◌<◌,
}
use rinha_rust_tree.Prelude.Int.{pos, negsuc}
use rinha_rust_tree.Index.Build.{Reference}
use rinha_rust_tree.Index.Best.Nearest.{IsNearest}
use rinha_rust_tree.Index.Scheme.{Neighbor, midpoint, sample_indices, no_near, topk_one}
use rinha_rust_tree.Index.Scheme.Neighbors.{as_slot, others, topk_one-IsNearest}
use rinha_rust_tree.Index.Scheme.Returns.{Returns}
use rinha_rust_tree.Index.Scheme.Train.{Scores, learn_tree_predicates}
use rinha_rust_tree.Index.Scheme.Known.{IsI16}
use rinha_rust_tree.Index.Scheme.Found.{AreI16}
use rinha_rust_tree.Index.Scheme.Proper.{IsPermuting}
use rinha_rust_tree.Index.Scheme.Learn.{IsLearned, learn_tree_predicates-IsLearned}

-- numbers that are a how_many of thousandths, none below zero
abbrev thousandths : Scores
thousandths = record {
  F64 = ℕ;
  of_nat = λ n. n * 1000;
  decimal = λ n digits. n * 1000 / 10 ^ digits;
  add = λ a b. a + b;
  sub = λ a b. a - b;
  mul = λ a b. a * b / 1000;
  div = λ a b. a * 1000 / b;
  max = λ a b. max a b;
  abs = λ a. a;
  gt = λ a b. ltb b a;
}

abbrev at_value : ℕ → ℕ → Reference
at_value n label = record { vector = pos n ∷ replicate 15 (pos 0); label = label }

-- eight legitimate references, and eight frauds at higher values
abbrev legitimate : List Reference
legitimate = map (λ n. at_value n 0) (0 ∷ 1 ∷ 2 ∷ 3 ∷ 4 ∷ 5 ∷ 6 ∷ 7 ∷ [])

abbrev frauds : List Reference
frauds = map (λ n. at_value n 1) (20 ∷ 21 ∷ 22 ∷ 23 ∷ 24 ∷ 25 ∷ 26 ∷ 27 ∷ [])

abbrev sixteen_references : List Reference
sixteen_references = legitimate ++ frauds

abbrev keep {ℓ} : {A : Type ℓ} → List A → List A
keep xs = xs

keep-IsPermuting {ℓ} : {A : Type ℓ} → IsPermuting {A = A} keep
keep-IsPermuting xs = Perm.refl xs

midpoint_below_zero : midpoint (negsuc 2) (negsuc 1) ≡ negsuc 1
unfolding midpoint
midpoint_below_zero = refl

samples_example : sample_indices 10 4 ≡ 0 ∷ 2 ∷ 4 ∷ 6 ∷ []
unfolding sample_indices
samples_example = refl

topk_example : topk_one sixteen_references 2 ≡ some (1 ∷ 3 ∷ 0 ∷ 4 ∷ 5 ∷ [])
unfolding topk_one
topk_example = refl

learned_example :
    learn_tree_predicates thousandths keep keep sixteen_references 1
    ≡ some (record { dim = 0; threshold = pos 13; enabled = true } ∷ [])
unfolding learn_tree_predicates
learned_example = refl

zeros : (n : ℕ) → IsI16 (replicate n (pos 0))
zeros zero = tt
zeros (suc n) = ((omega arith, omega arith), zeros n)

fitting :
    (label : ℕ) (values : List ℕ)
    → All (λ n. n < 100) values
    → AreI16 (map (λ n. at_value n label) values)
fitting label [] h = tt
fitting label (n ∷ values) h = (((omega arith, omega arith), zeros 15), fitting label values h.1)

labelled :
    (label : ℕ) (values : List ℕ)
    → label < 2
    → All (λ r. r.label < 2) (map (λ n. at_value n label) values)
labelled label [] h = tt
labelled label (n ∷ values) h = (h, labelled label values h)

sixteen_references-AreI16 : AreI16 sixteen_references
sixteen_references-AreI16 =
    All-append (λ r. IsI16 r.vector) legitimate frauds
      (fitting 0 (0 ∷ 1 ∷ 2 ∷ 3 ∷ 4 ∷ 5 ∷ 6 ∷ 7 ∷ []) (ground arith))
      (fitting 1 (20 ∷ 21 ∷ 22 ∷ 23 ∷ 24 ∷ 25 ∷ 26 ∷ 27 ∷ []) (ground arith))

sixteen_labels : All (λ r. r.label < 2) sixteen_references
sixteen_labels =
    All-append (λ r. r.label < 2) legitimate frauds
      (labelled 0 (0 ∷ 1 ∷ 2 ∷ 3 ∷ 4 ∷ 5 ∷ 6 ∷ 7 ∷ []) (omega arith))
      (labelled 1 (20 ∷ 21 ∷ 22 ∷ 23 ∷ 24 ∷ 25 ∷ 26 ∷ 27 ∷ []) (omega arith))

topk_one-IsNearest_example :
    (best : List Neighbor) × (topk_one sixteen_references 2 ≡ some (map (λ s. s.index) best))
    × IsNearest false
        (map as_slot best)
        (others (at_value 2 0).vector 2 0 sixteen_references ++ map as_slot no_near)
topk_one-IsNearest_example = topk_one-IsNearest sixteen_references 2 (at_value 2 0) refl

learn_tree_predicates-IsLearned_example :
    Returns
      (IsLearned sixteen_references 1)
      (learn_tree_predicates thousandths keep keep sixteen_references 1)
learn_tree_predicates-IsLearned_example =
    learn_tree_predicates-IsLearned thousandths keep keep sixteen_references 1 keep-IsPermuting
      keep-IsPermuting sixteen_references-AreI16 sixteen_labels
