-- ===== src/Index/Scheme/Learn.antt =====
-- src/index/partition_scheme.rs: what `learn_tree_predicates` learns.
use rinha_rust_tree.Prelude.{
  ℕ, zero, suc, ◌+◌, ◌-◌, ◌^◌, ◌<◌, ◌≤◌, ◌≡◌, refl, ◌⊎◌, inl, inr, min, ◌||◌, true, List, [], ◌∷◌,
  arith, ltb, ◌==◌, length, replicate, All, length-replicate,
}
use rinha_rust_tree.Prelude.Int.{ℤ}
use rinha_rust_tree.Index.Table.{TreePredicate}
use rinha_rust_tree.Index.Predict.{learned_tree_max_depth}
use rinha_rust_tree.Index.Reader.RoundTrip.{IsPredicate}
use rinha_rust_tree.Index.Build.{Reference}
use rinha_rust_tree.Index.Best.{k}
use rinha_rust_tree.Index.Scheme.{Candidate, sample_indices}
use rinha_rust_tree.Index.Scheme.Returns.{
  Returns, return, bind-Returns, if-Returns, get_elem?-Returns,
}
use rinha_rust_tree.Index.Scheme.Train.{
  Scores, Sample, positions_from, no_predicate, learn_tree_predicates,
}
use rinha_rust_tree.Index.Scheme.Learned.{IsSample, Within, how_many, is_left, is_right, IsTrained}
use rinha_rust_tree.Index.Scheme.Trained.{Trained, train_tree_node-Returns}
use rinha_rust_tree.Index.Scheme.Found.{AreI16, Indices, exact_topk-Returns, sample_indices-All}
use rinha_rust_tree.Index.Scheme.Proper.{IsPermuting, IsProper, candidate_predicates-All}

-- the references that a training samples, without their neighbours
abbrev pub sampled : List Reference → Sample
sampled references = record {
  references = references;
  query_idx = sample_indices (length references) 1024;
  neighbors = [];
}

abbrev pub sampled_positions : List Reference → List ℕ
sampled_positions references = positions_from (length (sample_indices (length references) 1024)) 0

abbrev pub as_candidate : TreePredicate → Candidate
as_candidate p = record { dim = p.dim; threshold = p.threshold }

-- An enabled predicate has at least four of the sampled references on either side.
pub record IsUseful (references : List Reference) (p : TreePredicate) : Type 0 where
  pub valid : IsPredicate p
  pub left :
      p.enabled ≡ true
      → 4 ≤ how_many (is_left (sampled references) (as_candidate p)) (sampled_positions references)
  pub right :
      p.enabled ≡ true
      → 4 ≤ how_many (is_right (sampled references) (as_candidate p)) (sampled_positions references)

-- There is nothing, or a predicate for each inner node of the tree.
abbrev pub IsLearned : List Reference → ℕ → List TreePredicate → Type 0
IsLearned references tree_depth tree =
    ((length tree ≡ 0) ⊎ (length tree ≡ 2 ^ min tree_depth learned_tree_max_depth - 1))
    × All (IsUseful references) tree

positions_from-InSample : (n i m : ℕ) → i + n ≤ m → All (λ j. j < m) (positions_from n i)
unfolding positions_from
positions_from-InSample zero i m h = tt
positions_from-InSample (suc n) i m h =
    (omega arith, positions_from-InSample n (i + 1) m (omega arith))

replicate-All {ℓ κ} : {A : Type ℓ} (P : A → Type κ) (n : ℕ) (a : A) → P a → All P (replicate n a)
replicate-All P zero a h = tt
replicate-All P (suc n) a h = (h, replicate-All P n a h)

All-each {ℓ κ κ'} :
    {A : Type ℓ} (P : A → Type κ) (Q : A → Type κ') (xs : List A)
    → ((a : A) → P a → Q a)
    → All P xs
    → All Q xs
All-each P Q [] f h = tt
All-each P Q (x ∷ xs) f h = (f x h.0, All-each P Q xs f h.1)

module _ (references : List Reference) (i16 : AreI16 references) (enough : 6 ≤ length references)
    (labels : All (λ r. r.label < 2) references) where
  neighbors-IsSample :
      (neighbors : List (List ℕ))
      → length neighbors ≡ length (sample_indices (length references) 1024)
      → All (Indices references) neighbors
      → IsSample (record {
        references = references;
        query_idx = sample_indices (length references) 1024;
        neighbors = neighbors;
      })
  neighbors-IsSample neighbors size inside = record {
    queries = λ i h.
        bind-Returns _ _ (get_elem?-Returns _ i h (sample_indices-All (length references) 1024))
          (λ qi e g.
            get_elem?-Returns references qi g
              (All-each _ (λ r. Unit {0}) references (λ a u. tt) i16));
    near = λ i h. get_elem?-Returns neighbors i (omega (arith, size, h)) inside;
    labels = labels;
  }

  -- What the training leaves in the tree is useful.
  trained-IsUseful :
      (fl : Scores) (neighbors : List (List ℕ))
      (ok : IsSample (record {
        references = references;
        query_idx = sample_indices (length references) 1024;
        neighbors = neighbors;
      }))
      (p : TreePredicate)
      → IsTrained fl _ ok IsProper (sampled_positions references) p
      → IsUseful references p
  unfolding IsTrained is_right
  trained-IsUseful fl neighbors ok p (inl e) = record {
    valid = rw e ((λ on. absurd (cc)), (omega arith, omega arith));
    left = λ on. absurd (cc);
    right = λ on. absurd (cc);
  }
  trained-IsUseful fl neighbors ok p (inr s) = record {
    valid = ((λ on. s.proper.0), s.proper.1);
    left = λ on. s.left;
    right = λ on. s.right;
  }

-- Where the vectors are of i16, the labels 0 and 1 and the sorts permute, the learning does not panic,
-- and gives no predicate or one for each inner node of the tree; each fits in the file, and an enabled
-- one has at least four of the sampled references on either side.
pub learn_tree_predicates-IsLearned :
    (fl : Scores) (sort_values : List ℤ → List ℤ)
    (sort_candidates : List Candidate → List Candidate) (references : List Reference)
    (tree_depth : ℕ)
    → IsPermuting sort_values
    → IsPermuting sort_candidates
    → AreI16 references
    → All (λ r. r.label < 2) references
    → Returns
        (IsLearned references tree_depth)
        (learn_tree_predicates fl sort_values sort_candidates references tree_depth)
unfolding learn_tree_predicates IsTrained
learn_tree_predicates-IsLearned fl sort_values sort_candidates references tree_depth values_permuted
      permuted i16 labels =
    let depth = min tree_depth learned_tree_max_depth in
    let query_idx = sample_indices (length references) 1024 in
    let positions = sampled_positions references in
    if-Returns (ltb (length references) (k + 1) || (depth == 0)) (λ few. return [] (inl refl, tt))
      (λ many.
        let enough : 6 ≤ length references = ground arith in
        bind-Returns _ _
          (exact_topk-Returns references i16 enough query_idx
            (sample_indices-All (length references) 1024))
          (λ neighbors e found.
            let ok = neighbors-IsSample references i16 enough labels neighbors found.0 found.1 in
            let whole : Within _ positions positions = record {
              inside =
                  positions_from-InSample (length query_idx) 0 (length query_idx) (omega arith);
              fewer = λ test. omega arith;
            } in
            let start : Trained fl _ ok IsProper _
                (candidate_predicates-All sort_values values_permuted references i16 sort_candidates
                  permuted)
                positions (2 ^ depth - 1) (replicate (2 ^ depth - 1) no_predicate) =
              (
                length-replicate (2 ^ depth - 1) no_predicate,
                replicate-All _ (2 ^ depth - 1) no_predicate (inl refl),
              ) in
            let t =
              train_tree_node-Returns fl _ ok IsProper _
                (candidate_predicates-All sort_values values_permuted references i16 sort_candidates
                  permuted)
                positions depth positions 0 _ (2 ^ depth - 1) whole start in
            record {
              value = t.value;
              same = t.same;
              holds = (
                inr t.holds.0,
                All-each _ _ t.value (trained-IsUseful references i16 enough labels fl neighbors ok)
                    t.holds.1,
              );
            }))
