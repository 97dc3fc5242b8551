-- ===== src/Index/Build/Groups.antt =====
-- The grouping of the references by their keys: every reference is in one group, that of its key.
use mathlib.Core.List.{Perm, perm_middle, append_assoc, append-nil}
use mathlib.Core.List.Perm
use rinha_rust_tree.Prelude.{
  ℕ, zero, suc, ◌+◌, ◌≡◌, refl, sym, ◌∙◌, inl, inr, List, [], ◌∷◌, ◌++◌, arith, ◌==◌, Bool-cases,
  ==→≡, length, All, All-append,
}
use rinha_rust_tree.Index.Table.{PartitionScheme}
use rinha_rust_tree.Index.Predict.{compute_tree_key}
use rinha_rust_tree.Index.Build.{Reference, reference_at}
use rinha_rust_tree.Index.Build.File.{Groups, push_index, group_from}

-- the indices of all groups
unfoldable pub grouped : Groups → List ℕ
grouped [] = []
grouped ((k, indices) ∷ groups) = indices ++ grouped groups

-- `n` numbers from `i` on
unfoldable pub range : ℕ → ℕ → List ℕ
range i zero = []
range i (suc n) = i ∷ range (i + 1) n

push_index-perm :
    (key idx : ℕ) (groups : Groups)
    → Perm (grouped (push_index key idx groups)) (idx ∷ grouped groups)
unfolding grouped push_index
push_index-perm key idx [] = Perm.refl _
push_index-perm key idx ((k, indices) ∷ groups) = elim (Bool-cases (k == key)) [
  | inl e ↦
      rw (e, append_assoc indices (idx ∷ []) (grouped groups))
        (perm_middle indices (grouped groups))
  | inr e ↦ rw e (
      Perm.trans (Perm.append_left indices (push_index-perm key idx groups))
        (perm_middle indices (grouped groups)))
]

pub group_from-perm :
    (scheme : PartitionScheme) (idx : ℕ) (references : List Reference) (groups : Groups)
    → Perm
        (grouped (group_from scheme idx references groups))
        (grouped groups ++ range idx (length references))
unfolding group_from range
group_from-perm scheme idx [] groups = rw (append-nil (grouped groups)) (Perm.refl _)
group_from-perm scheme idx (r ∷ references) groups =
    let k : ℕ = compute_tree_key r.vector scheme.tree_depth scheme.tree_predicates in
    Perm.trans (group_from-perm scheme (idx + 1) references (push_index k idx groups)) (
      Perm.trans
        (Perm.append_right (range (idx + 1) (length references)) (push_index-perm k idx groups))
        (Perm.symm (perm_middle (grouped groups) (range (idx + 1) (length references)))))

module _ (scheme : PartitionScheme) (whole : List Reference) where
  abbrev HasKey : ℕ → ℕ → Type 0
  HasKey key idx =
      compute_tree_key (reference_at whole idx).vector scheme.tree_depth scheme.tree_predicates
      ≡ key

  -- The indices of a group are those of references with its key.
  abbrev pub AreKeyed : Groups → Type 0
  AreKeyed = All (λ g. All (HasKey g.0) g.1)

  push_index-AreKeyed :
      (key idx : ℕ) (groups : Groups)
      → HasKey key idx
      → AreKeyed groups
      → AreKeyed (push_index key idx groups)
  unfolding push_index
  push_index-AreKeyed key idx [] h hs = ((h, tt), tt)
  push_index-AreKeyed key idx ((k, indices) ∷ groups) h hs = elim (Bool-cases (k == key)) [
    | inl e ↦
        rw e (All-append (HasKey k) indices (idx ∷ []) hs.0 (h ∙ sym (==→≡ k key e), tt), hs.1)
    | inr e ↦ rw e (hs.0, push_index-AreKeyed key idx groups h hs.1)
  ]

  group_from-AreKeyed :
      (idx : ℕ) (references : List Reference) (groups : Groups)
      → ((j : ℕ) → reference_at whole (idx + j) ≡ reference_at references j)
      → AreKeyed groups
      → AreKeyed (group_from scheme idx references groups)
  unfolding group_from
  group_from-AreKeyed idx [] groups h hs = hs
  group_from-AreKeyed idx (r ∷ references) groups h hs =
      let z : idx + 0 ≡ idx = omega arith in
      let here : reference_at whole idx ≡ r = rw z at (h 0) in
      group_from-AreKeyed (idx + 1) references _
        (λ j. let g : idx + 1 + j ≡ idx + suc j = omega arith in rw g (h (suc j)))
        (push_index-AreKeyed _ idx groups (rw here refl) hs)

-- The groups of `build_index` hold each reference once, and by its key.
pub group_from_lem :
    (scheme : PartitionScheme) (references : List Reference)
    → let groups = group_from scheme 0 references [] in
      Perm (grouped groups) (range 0 (length references)) × AreKeyed scheme references groups
unfolding grouped
group_from_lem scheme references = (
  group_from-perm scheme 0 references [],
  group_from-AreKeyed scheme references 0 references []
      (λ j. let z : 0 + j ≡ j = omega arith in rw z refl) tt,
)
