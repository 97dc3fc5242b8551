-- ===== src/Index/Scheme/Train.antt =====
-- src/index/partition_scheme.rs: the choice of the predicates, by the score of each candidate. The
-- arithmetic of f64 is an interface. The log of a training and the name in it are left out. `none`
-- is the panic of an index that is out of range.
use rinha_rust_tree.Prelude.{
  ℕ, zero, suc, ◌+◌, ◌-◌, ◌*◌, ◌/◌, ◌^◌, min, max, Bool, true, false, not, ◌||◌, List, [], ◌∷◌,
  Option, none, some, ltb, leb, ◌==◌, if◌then◌else◌, length, get_elem?, set, replicate,
}
use rinha_rust_tree.Prelude.Int.{ℤ, pos}
use rinha_rust_tree.Index.Table.{TreePredicate, PartitionScheme}
use rinha_rust_tree.Index.Build.{Reference, ◌>>=◌}
use rinha_rust_tree.Index.Best.{k}
use rinha_rust_tree.Index.Predict.{learned_tree_max_depth}
use rinha_rust_tree.Index.Scheme.{
  Candidate, predicate_matches, candidate_predicates, sample_indices, exact_topk,
}

pub record Scores : Type 1 where
  pub F64 : Type 0
  -- `as f64`
  pub of_nat : ℕ → F64
  -- the literal of so many digits behind the point: `decimal 55 2` is 0.55
  pub decimal : ℕ → ℕ → F64
  pub add : F64 → F64 → F64
  pub sub : F64 → F64 → F64
  pub mul : F64 → F64 → F64
  pub div : F64 → F64 → F64
  pub max : F64 → F64 → F64
  pub abs : F64 → F64
  pub gt : F64 → F64 → Bool

-- `pos` and `total` of `label_separation`
pub record Labels : Type 0 where
  pub pos0 : ℕ
  pub pos1 : ℕ
  pub total0 : ℕ
  pub total1 : ℕ

-- a reference of that label; the arrays have two elements
unfoldable pub count_label : ℕ → Bool → Labels → Option Labels
count_label zero side st = some (record {
  pos0 = if side then st.pos0 + 1 else st.pos0;
  pos1 = st.pos1;
  total0 = st.total0 + 1;
  total1 = st.total1;
})
count_label (suc zero) side st = some (record {
  pos0 = st.pos0;
  pos1 = if side then st.pos1 + 1 else st.pos1;
  total0 = st.total0;
  total1 = st.total1 + 1;
})
count_label (suc (suc label)) side st = none

-- the loop over every `step`-th reference, `skip` of them before the next
unfoldable pub count_labels : ℕ → ℕ → List Reference → Candidate → Labels → Option Labels
unfolding count_label predicate_matches
count_labels step skip [] predicate st = some st
count_labels step zero (r ∷ references) predicate st =
    count_label r.label (predicate_matches r.vector predicate) st >>= λ st'.
    count_labels step (step - 1) references predicate st'
count_labels step (suc skip) (r ∷ references) predicate st =
    count_labels step skip references predicate st

-- a query's side, and how many of its neighbours are on it
pub record Sides (F64 : Type 0) : Type 0 where
  pub left : ℕ
  pub right : ℕ
  pub coloc_sum : F64

unfoldable pub same_side : List Reference → List ℕ → Candidate → Bool → Option ℕ
unfolding predicate_matches
same_side references [] predicate q_side = some 0
same_side references (ni ∷ neighbors) predicate q_side = get_elem? references ni >>= λ r.
    same_side references neighbors predicate q_side >>= λ same.
    let side = predicate_matches r.vector predicate in
    some (if (if q_side then side else not side) then same + 1 else same)

-- the references that a training looks at
pub record Sample : Type 0 where
  pub references : List Reference
  pub query_idx : List ℕ
  pub neighbors : List (List ℕ)

-- `references[query_idx[pos]]`
abbrev pub query_at : Sample → ℕ → Option Reference
query_at sample i = get_elem? sample.query_idx i >>= λ qi. get_elem? sample.references qi

-- the positions on the left and on the right of a predicate
unfoldable pub split_positions : Sample → Candidate → List ℕ → Option (List ℕ × List ℕ)
unfolding predicate_matches
split_positions sample predicate [] = some ([], [])
split_positions sample predicate (i ∷ positions) = query_at sample i >>= λ r.
    split_positions sample predicate positions >>= λ sides. some (
      if predicate_matches r.vector predicate
      then (sides.0, i ∷ sides.1)
      else (i ∷ sides.0, sides.1))

-- `(0..n).collect()`, from `i` on
unfoldable pub positions_from : ℕ → ℕ → List ℕ
positions_from zero i = []
positions_from (suc n) i = i ∷ positions_from n (i + 1)

abbrev pub no_predicate : TreePredicate
no_predicate = record { dim = 0; threshold = pos 0; enabled = false }

module _ (fl : Scores) where
  abbrev pub share : ℕ → ℕ → fl.F64
  share part total =
      if total == 0 then fl.decimal 0 1 else fl.div (fl.of_nat part) (fl.of_nat total)

  unfoldable pub label_separation : List Reference → Candidate → Option fl.F64
  unfolding count_labels
  label_separation references predicate =
      let step = max (length references / 100_000) 1 in
      let none_yet : Labels = record { pos0 = 0; pos1 = 0; total0 = 0; total1 = 0 } in
      count_labels step 0 references predicate none_yet >>= λ st.
      some (fl.abs (fl.sub (share st.pos0 st.total0) (share st.pos1 st.total1)))

  -- the loop over `positions`
  unfoldable pub count_sides : Sample → Candidate → List ℕ → Sides fl.F64 → Option (Sides fl.F64)
  unfolding predicate_matches same_side
  count_sides sample c [] st = some st
  count_sides sample c (i ∷ positions) st = query_at sample i >>= λ r.
      let q_side = predicate_matches r.vector c in
      get_elem? sample.neighbors i >>= λ near. same_side sample.references near c q_side >>= λ same.
      count_sides sample c positions (record {
        left = if q_side then st.left else st.left + 1;
        right = if q_side then st.right + 1 else st.right;
        coloc_sum = fl.add st.coloc_sum (fl.div (fl.of_nat same) (fl.of_nat k));
      })

  -- `coloc - imbalance_weight * imbalance + label_weight * label_sep`
  unfoldable pub weigh : ℕ → Sides fl.F64 → fl.F64 → fl.F64
  weigh count st label_sep =
      let n = fl.of_nat count in
      let coloc = fl.div st.coloc_sum n in
      let imbalance =
        fl.max (fl.sub (fl.div (fl.of_nat (max st.left st.right)) n) (fl.decimal 55 2))
          (fl.decimal 0 1) in
      fl.add (fl.sub coloc (fl.mul (fl.decimal 35 2) imbalance)) (fl.mul (fl.decimal 3 2) label_sep)

  abbrev pub Best : Type 0
  Best = Option (fl.F64 × Candidate)

  abbrev pub better : fl.F64 → Best → Bool
  better score none = true
  better score (some (s, c)) = fl.gt score s

  unfoldable pub consider : Sample → List ℕ → Candidate → Best → Option Best
  unfolding count_sides weigh label_separation
  consider sample positions c best =
      count_sides sample c positions (record { left = 0; right = 0; coloc_sum = fl.decimal 0 1 })
      >>= λ st.
          if ltb (min st.left st.right) 4
          then some best
          else label_separation sample.references c >>= λ label_sep.
              let score = weigh (length positions) st label_sep in
              some (if better score best then some (score, c) else best)

  -- the loop over `candidates`
  unfoldable pub best_predicate : Sample → List ℕ → List Candidate → Best → Option Best
  unfolding consider
  best_predicate sample positions [] best = some best
  best_predicate sample positions (c ∷ candidates) best =
      consider sample positions c best >>= λ best'. best_predicate sample positions candidates best'

  -- what follows the choice at a node, with the training of a child below it
  unfoldable pub take_best :
      Sample
      → (List ℕ → ℕ → List TreePredicate → Option (List TreePredicate))
      → List ℕ
      → ℕ
      → List TreePredicate
      → Best
      → Option (List TreePredicate)
  unfolding split_positions
  take_best sample train_child positions node tree none = some tree
  take_best sample train_child positions node tree (some (score, predicate)) =
      let chosen : TreePredicate = record {
        dim = predicate.dim;
        threshold = predicate.threshold;
        enabled = true;
      } in
      split_positions sample predicate positions >>= λ sides.
      train_child sides.0 (node * 2 + 1) (set tree node chosen) >>= λ tree'.
      train_child sides.1 (node * 2 + 2) tree'

  -- `levels` is `max_depth - depth`.
  unfoldable pub train_tree_node :
      Sample → List Candidate → ℕ → List ℕ → ℕ → List TreePredicate → Option (List TreePredicate)
  unfolding best_predicate take_best
  train_tree_node sample candidates zero positions node tree = some tree
  train_tree_node sample candidates (suc levels) positions node tree =
      let train_child = train_tree_node sample candidates levels in
      let trained = best_predicate sample positions candidates none >>= λ best.
      take_best sample train_child positions node tree best in
      if leb (length tree) node || ltb (length positions) 8 then some tree else trained

  unfoldable pub learn_tree_predicates :
      (List ℤ → List ℤ)
      → (List Candidate → List Candidate)
      → List Reference
      → ℕ
      → Option (List TreePredicate)
  unfolding sample_indices exact_topk candidate_predicates train_tree_node positions_from
  learn_tree_predicates sort_values sort_candidates references tree_depth =
      let tree_depth = min tree_depth learned_tree_max_depth in
      if ltb (length references) (k + 1) || (tree_depth == 0)
      then some []
      else let query_idx = sample_indices (length references) 1024 in
        exact_topk references query_idx >>= λ neighbors.
        train_tree_node
          (record { references = references; query_idx = query_idx; neighbors = neighbors })
          (candidate_predicates sort_values sort_candidates references) tree_depth
          (positions_from (length query_idx) 0) 0 (replicate (2 ^ tree_depth - 1) no_predicate)

  -- `PartitionScheme::prepare`
  unfoldable pub prepare :
      (List ℤ → List ℤ)
      → (List Candidate → List Candidate)
      → PartitionScheme
      → List Reference
      → Option PartitionScheme
  unfolding learn_tree_predicates
  prepare sort_values sort_candidates scheme references = elim scheme.tree_predicates [
    | [] ↦
        learn_tree_predicates sort_values sort_candidates references scheme.tree_depth
        >>= λ predicates.
            some (record { tree_depth = scheme.tree_depth; tree_predicates = predicates })
    | p ∷ predicates ↦ some scheme
  ]

-- `PartitionScheme::recommended` and `learned_tree`; the name is left out
abbrev pub learned_tree : ℕ → PartitionScheme
learned_tree tree_depth = record { tree_depth = tree_depth; tree_predicates = [] }

abbrev pub recommended : PartitionScheme
recommended = learned_tree 8
