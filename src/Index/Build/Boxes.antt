-- ===== src/Index/Build/Boxes.antt =====
-- The box of a node contains the vectors of its references.
use rinha_rust_tree.Prelude.{
  ℕ, zero, suc, ◌≡◌, refl, ap, ◌∙◌, List, [], ◌∷◌, arith, length, replicate, All,
}
use rinha_rust_tree.Prelude.Int.{ℤ, ◌≤ℤ◌}
use rinha_rust_tree.Index.Words.{max16}
use rinha_rust_tree.Index.Table.{QueryVector, dim}
use rinha_rust_tree.Index.Build.{
  Reference, reference_at, packed_dims, min16, mins, maxs, box_min, box_max, lower, upper, i16_max,
  i16_min,
}

dim-mins :
    (mn v : QueryVector) (d : ℕ)
    → length mn ≡ length v
    → dim (mins mn v) d ≡ min16 (dim mn d) (dim v d)
unfolding mins
dim-mins [] [] d h = refl
dim-mins [] (x ∷ v) d h = absurd (omega arith)
dim-mins (m ∷ mn) [] d h = absurd (omega arith)
dim-mins (m ∷ mn) (x ∷ v) zero h = refl
dim-mins (m ∷ mn) (x ∷ v) (suc d) h = dim-mins mn v d (omega arith)

dim-maxs :
    (mx v : QueryVector) (d : ℕ)
    → length mx ≡ length v
    → dim (maxs mx v) d ≡ max16 (dim mx d) (dim v d)
unfolding maxs
dim-maxs [] [] d h = refl
dim-maxs [] (x ∷ v) d h = absurd (omega arith)
dim-maxs (m ∷ mx) [] d h = absurd (omega arith)
dim-maxs (m ∷ mx) (x ∷ v) zero h = refl
dim-maxs (m ∷ mx) (x ∷ v) (suc d) h = dim-maxs mx v d (omega arith)

length-mins : (mn v : QueryVector) → length (mins mn v) ≡ length mn
unfolding mins
length-mins [] v = refl
length-mins (m ∷ mn) [] = refl
length-mins (m ∷ mn) (x ∷ v) = ap suc (length-mins mn v)

length-maxs : (mx v : QueryVector) → length (maxs mx v) ≡ length mx
unfolding maxs
length-maxs [] v = refl
length-maxs (m ∷ mx) [] = refl
length-maxs (m ∷ mx) (x ∷ v) = ap suc (length-maxs mx v)

min16-le : (a b : ℤ) → (min16 a b ≤ℤ a) × (min16 a b ≤ℤ b)
min16-le a b = ground arith

max16-ge : (a b : ℤ) → (a ≤ℤ max16 a b) × (b ≤ℤ max16 a b)
max16-ge a b = ground arith

module _ (references : List Reference) where
  -- the vectors are `QueryVector`s of 16 values
  abbrev pub IsPacked : ℕ → Type 0
  IsPacked idx = length (reference_at references idx).vector ≡ packed_dims

  abbrev vector_dim : ℕ → ℕ → ℤ
  vector_dim d idx = dim (reference_at references idx).vector d

  box_min-le :
      (indices : List ℕ) (mn : QueryVector) (d : ℕ)
      → length mn ≡ packed_dims
      → All IsPacked indices
      → (dim (box_min references indices mn) d ≤ℤ dim mn d)
        × All (λ idx. dim (box_min references indices mn) d ≤ℤ vector_dim d idx) indices
  unfolding box_min
  box_min-le [] mn d h packed = (omega arith, tt)
  box_min-le (idx ∷ indices) mn d h packed =
      let v = (reference_at references idx).vector in
      let (below, rest) = box_min-le indices (mins mn v) d (length-mins mn v ∙ h) packed.1 in
      let e = dim-mins mn v d (omega (arith, h, packed.0)) in
      let below' = rw e at below in
      let (l, r) = min16-le (dim mn d) (dim v d) in
      (omega (arith, below', l), (omega (arith, below', r), rest))

  box_max-ge :
      (indices : List ℕ) (mx : QueryVector) (d : ℕ)
      → length mx ≡ packed_dims
      → All IsPacked indices
      → (dim mx d ≤ℤ dim (box_max references indices mx) d)
        × All (λ idx. vector_dim d idx ≤ℤ dim (box_max references indices mx) d) indices
  unfolding box_max
  box_max-ge [] mx d h packed = (omega arith, tt)
  box_max-ge (idx ∷ indices) mx d h packed =
      let v = (reference_at references idx).vector in
      let (above, rest) = box_max-ge indices (maxs mx v) d (length-maxs mx v ∙ h) packed.1 in
      let e = dim-maxs mx v d (omega (arith, h, packed.0)) in
      let above' = rw e at above in
      let (l, r) = max16-ge (dim mx d) (dim v d) in
      (omega (arith, l, above'), (omega (arith, r, above'), rest))

  -- In each dimension, the box of a node contains its references.
  pub box_lem :
      (indices : List ℕ) (d : ℕ)
      → All IsPacked indices
      → All (λ idx. dim (lower references indices) d ≤ℤ vector_dim d idx) indices
        × All (λ idx. vector_dim d idx ≤ℤ dim (upper references indices) d) indices
  box_lem indices d packed = (
    (box_min-le indices (replicate packed_dims i16_max) d refl packed).1,
    (box_max-ge indices (replicate packed_dims i16_min) d refl packed).1,
  )
