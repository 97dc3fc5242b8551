-- ===== src/Vector/Range.antt =====
-- Vectors whose dimensions are quantized values.
use rinha_rust_tree.Prelude.{
  ℕ, zero, suc, ◌<◌, ◌≡◌, refl, ◌∙◌, Bool, true, false, List, [], ◌∷◌, arith, if◌then◌else◌, length,
  length-set, set, replicate,
}
use rinha_rust_tree.Prelude.Int.{ℤ, pos, ◌≤ℤ◌}
use rinha_rust_tree.Index.Table.{QueryVector, dim}
use rinha_rust_tree.Vector.Floats.{Floats, quantize, minus_scale, finish_vector}

-- For a value strictly between 0 and 1, or one that is no number, the rounded product with the
-- scale is between 0 and the scale.
pub record RoundsInside (fl : Floats) (scale : ℕ) : Type 0 where
  pub rounds :
      (value : fl.F64)
      → fl.le value (fl.of_int (pos 0)) ≡ false
      → fl.le (fl.of_int (pos 1)) value ≡ false
      → (pos 0 ≤ℤ fl.round_i16 (fl.mul value (fl.of_int (pos scale))))
        × (fl.round_i16 (fl.mul value (fl.of_int (pos scale))) ≤ℤ pos scale)

module _ (fl : Floats) (scale : ℕ) where
  abbrev pub InScale : ℤ → Type 0
  InScale v = (minus_scale fl scale ≤ℤ v) × (v ≤ℤ pos scale)

  minus_scale-InScale : InScale (minus_scale fl scale)
  minus_scale-InScale = ground arith

  pub between-InScale : (v : ℤ) → pos 0 ≤ℤ v → v ≤ℤ pos scale → InScale v
  between-InScale v h k = ground arith

  if-InScale :
      (b : Bool) (v w : ℤ)
      → (b ≡ true → InScale v)
      → (b ≡ false → InScale w)
      → InScale (if b then v else w)
  if-InScale true v w h k = h refl
  if-InScale false v w h k = k refl

  pub flag-InScale : (b : Bool) → InScale (if b then pos scale else pos 0)
  flag-InScale true = ground arith
  flag-InScale false = ground arith

  -- The dimensions are within the scale, and the two of padding are zero.
  pub record IsVector (out : QueryVector) : Type 0 where
    pub size : length out ≡ 16
    pub dims : (d : ℕ) → InScale (dim out d)
    pub padding : (dim out 14 ≡ pos 0) × (dim out 15 ≡ pos 0)

  dim-set :
      (out : QueryVector) (d e : ℕ) (v : ℤ)
      → InScale v
      → InScale (dim out e)
      → InScale (dim (set out d v) e)
  dim-set [] d e v h k = k
  dim-set (x ∷ out) zero zero v h k = h
  dim-set (x ∷ out) zero (suc e) v h k = k
  dim-set (x ∷ out) (suc d) zero v h k = k
  dim-set (x ∷ out) (suc d) (suc e) v h k = dim-set out d e v h k

  dim-set_other : (out : QueryVector) (d e : ℕ) (v : ℤ) → d < e → dim (set out d v) e ≡ dim out e
  dim-set_other [] d e v h = refl
  dim-set_other (x ∷ out) zero zero v h = absurd (omega arith)
  dim-set_other (x ∷ out) zero (suc e) v h = refl
  dim-set_other (x ∷ out) (suc d) zero v h = absurd (omega arith)
  dim-set_other (x ∷ out) (suc d) (suc e) v h = dim-set_other out d e v (omega arith)

  pub set-IsVector :
      (out : QueryVector) (d : ℕ) (v : ℤ)
      → d < 14
      → InScale v
      → IsVector out
      → IsVector (set out d v)
  set-IsVector out d v h s i = record {
    size = length-set out d v ∙ i.size;
    dims = λ e. dim-set out d e v s (i.dims e);
    padding = (
      dim-set_other out d 14 v h ∙ i.padding.0,
      dim-set_other out d 15 v (omega (arith, h)) ∙ i.padding.1,
    );
  }

  zeros-InScale : (n d : ℕ) → InScale (dim (replicate n (pos 0)) d)
  zeros-InScale zero d = ground arith
  zeros-InScale (suc n) zero = ground arith
  zeros-InScale (suc n) (suc d) = zeros-InScale n d

  pub zeros-IsVector : IsVector (replicate 16 (pos 0))
  zeros-IsVector = record { size = refl; dims = zeros-InScale 16; padding = (refl, refl) }

  module _ (r : RoundsInside fl scale) where
    pub quantize-InScale : (value : fl.F64) → InScale (quantize fl scale value)
    unfolding quantize
    quantize-InScale value =
        if-InScale (fl.le value (fl.neg (fl.of_int (pos 1)))) _ _ (λ e. minus_scale-InScale)
          (λ e.
            if-InScale (fl.le value (fl.of_int (pos 0))) _ _ (λ f. flag-InScale false)
              (λ f.
                if-InScale (fl.le (fl.of_int (pos 1)) value) _ _ (λ g. flag-InScale true)
                  (λ g. let (low, high) = r.rounds value f g in between-InScale _ low high)))

    -- a quantized value into one of the 14 dimensions
    pub put-IsVector :
        (out : QueryVector) (d : ℕ) (value : fl.F64)
        → d < 14
        → IsVector out
        → IsVector (set out d (quantize fl scale value))
    put-IsVector out d value h = set-IsVector out d _ h (quantize-InScale value)

    pub last-IsVector :
        (out : QueryVector)
        → IsVector out
        → IsVector (set (set out 5 (minus_scale fl scale)) 6 (minus_scale fl scale))
    last-IsVector out i =
        set-IsVector _ 6 _ (omega arith) minus_scale-InScale
          (set-IsVector out 5 _ (omega arith) minus_scale-InScale i)

    pub finish_vector-IsVector :
        (out : QueryVector) (amount avg : fl.F64) (h : ℕ) (hashes : List ℕ)
        → IsVector out
        → IsVector (finish_vector fl scale out amount avg h hashes)
    unfolding finish_vector
    finish_vector-IsVector out amount avg h hashes i = set-IsVector _ 11 _ (omega arith) (known _) (
        set-IsVector out 2 _ (omega arith)
          (if-InScale (fl.lt (fl.of_int (pos 0)) avg) _ _ (λ e. quantize-InScale _)
            (λ e. flag-InScale true))
          i)
      where
        known : (b : Bool) → InScale (if b then pos 0 else pos scale)
        known true = flag-InScale false
        known false = flag-InScale true
