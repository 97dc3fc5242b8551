-- ===== src/Index/Scheme/Trained.antt =====
-- src/index/partition_scheme.rs: the training of the tree below a node.
use rinha_rust_tree.Prelude.{
  ℕ, zero, suc, ◌+◌, ◌*◌, ◌≡◌, ◌∙◌, inr, true, ◌||◌, List, Option, none, some, arith, ltb, leb,
  length, set, All, length-set,
}
use rinha_rust_tree.Index.Table.{TreePredicate}
use rinha_rust_tree.Index.Scheme.{Candidate}
use rinha_rust_tree.Index.Scheme.Returns.{Returns, return, bind-Returns, if-Returns, All-set}
use rinha_rust_tree.Index.Scheme.Train.{Scores, Sample, Best, take_best, train_tree_node}
use rinha_rust_tree.Index.Scheme.Learned.{
  IsSample, Within, is_left, is_right, Separates, IsChosen, IsTrained, split_positions-Returns,
  best_predicate-Returns,
}

module _ (fl : Scores) (sample : Sample) (ok : IsSample sample) (Proper : Candidate → Type 0)
    (candidates : List Candidate) (proper : All Proper candidates) (whole : List ℕ) where
  abbrev pub Trained : ℕ → List TreePredicate → Type 0
  Trained size tree = (length tree ≡ size) × All (IsTrained fl sample ok Proper whole) tree

  Separates-whole :
      {positions : List ℕ} {c : Candidate}
      → Within sample positions whole
      → Separates fl sample ok Proper positions c
      → Separates fl sample ok Proper whole c
  Separates-whole {c = c} w s = record {
    proper = s.proper;
    left = omega (arith, s.left, w.fewer (is_left sample c));
    right = omega (arith, s.right, w.fewer (is_right sample c));
  }

  Within-trans :
      {part positions : List ℕ}
      → Within sample part positions
      → Within sample positions whole
      → Within sample part whole
  Within-trans v w = record {
    inside = v.inside;
    fewer = λ test. omega (arith, v.fewer test, w.fewer test);
  }

  take_best-Returns :
      (train_child : List ℕ → ℕ → List TreePredicate → Option (List TreePredicate))
      → ((positions : List ℕ) (node : ℕ) (tree : List TreePredicate) (size : ℕ)
          → Within sample positions whole
          → Trained size tree
          → Returns (Trained size) (train_child positions node tree))
      → (positions : List ℕ) (node : ℕ) (tree : List TreePredicate) (size : ℕ) (best : Best fl)
      → Within sample positions whole
      → Trained size tree
      → IsChosen fl sample ok Proper positions best
      → Returns (Trained size) (take_best fl sample train_child positions node tree best)
  unfolding take_best IsChosen IsTrained
  take_best-Returns train_child child positions node tree size none w trained chosen =
      return tree trained
  take_best-Returns train_child child positions node tree size (some (score, c)) w trained chosen =
      let p : TreePredicate = record { dim = c.dim; threshold = c.threshold; enabled = true } in
      let trained' : Trained size (set tree node p) = (
        length-set tree node p ∙ trained.0,
        All-set (IsTrained fl sample ok Proper whole) tree node p trained.1
            (inr (Separates-whole w chosen)),
      ) in
      bind-Returns _ _ (split_positions-Returns fl sample ok c positions w.inside)
        (λ sides e within.
          bind-Returns _ _ (child sides.0 (node * 2 + 1) _ size (Within-trans within.0 w) trained')
            (λ tree' e' trained''.
              child sides.1 (node * 2 + 2) tree' size (Within-trans within.1 w) trained''))

  pub train_tree_node-Returns :
      (levels : ℕ) (positions : List ℕ) (node : ℕ) (tree : List TreePredicate) (size : ℕ)
      → Within sample positions whole
      → Trained size tree
      → Returns (Trained size) (train_tree_node fl sample candidates levels positions node tree)
  unfolding train_tree_node IsChosen
  train_tree_node-Returns zero positions node tree size w trained = return tree trained
  train_tree_node-Returns (suc levels) positions node tree size w trained =
      if-Returns (leb (length tree) node || ltb (length positions) 8) (λ stop. return tree trained)
        (λ goes.
          bind-Returns _ _
            (best_predicate-Returns fl sample ok Proper positions candidates none w.inside proper
              tt)
            (λ best e chosen.
              take_best-Returns _ (train_tree_node-Returns levels) positions node tree size best w
                trained chosen))
