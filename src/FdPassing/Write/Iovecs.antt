-- ===== src/FdPassing/Write/Iovecs.antt =====
-- src/fd_passing/evented.rs: the iovecs are the front of what is left to send.
use rinha_rust_tree.Prelude.{
  ℕ, zero, suc, ◌+◌, ◌-◌, ◌≤◌, ◌<◌, ◌≡◌, refl, sym, ap, ◌∙◌, true, false, List, [], ◌∷◌, ◌++◌,
  arith, inl, inr, leb, Bool-cases, length, take, drop, length-append, leb→le, leb-false,
}
use rinha_rust_tree.Http.Bytes.{Bytes, drop-append_le}
use rinha_rust_tree.FdPassing.Batch.{total}
use rinha_rust_tree.FdPassing.Write.{is_nil, build_iovecs, concat}

pub total-concat : (responses : List Bytes) → total responses ≡ length (concat responses)
unfolding total concat
total-concat [] = refl
total-concat (r ∷ responses) =
    omega (arith, total-concat responses, length-append r (concat responses))

pub drop-append_ge :
    (n : ℕ) (xs ys : Bytes) → length xs ≤ n → drop n (xs ++ ys) ≡ drop (n - length xs) ys
drop-append_ge n [] ys h = ap (λ i. drop i ys) (omega arith)
drop-append_ge zero (x ∷ xs) ys h = absurd (omega arith)
drop-append_ge (suc n) (x ∷ xs) ys h =
    drop-append_ge n xs ys (omega arith) ∙ ap (λ i. drop i ys) (omega arith)

pub append_assoc : (xs ys zs : Bytes) → (xs ++ ys) ++ zs ≡ xs ++ (ys ++ zs)
append_assoc [] ys zs = refl
append_assoc (x ∷ xs) ys zs = ap (◌∷◌ x) (append_assoc xs ys zs)

pub append_nil : (xs : Bytes) → xs ++ [] ≡ xs
append_nil [] = refl
append_nil (x ∷ xs) = ap (◌∷◌ x) (append_nil xs)

-- The iovecs are the front of what is left to send.
pub build_iovecs-prefix :
    (responses : List Bytes) (written room : ℕ)
    → (rest : Bytes) × (concat (build_iovecs responses written room) ++ rest
        ≡ drop written (concat responses))
unfolding build_iovecs concat
build_iovecs-prefix [] written room = (drop written [], refl)
build_iovecs-prefix (resp ∷ responses) written zero =
    (drop written (concat (resp ∷ responses)), refl)
build_iovecs-prefix (resp ∷ responses) written (suc room) =
    elim (Bool-cases (leb (length resp) written)) [
      | inl skip ↦
          let (rest, e) = build_iovecs-prefix responses (written - length resp) (suc room) in
          (
            rest,
            rw skip (
                e
                ∙ sym (
                    drop-append_ge written resp (concat responses)
                      (leb→le (length resp) written skip))),
          )
      | inr front ↦
          let (rest, e) = build_iovecs-prefix responses 0 room in
          (
            rest,
            rw front (
                append_assoc (drop written resp) _ rest
                ∙ ap (λ more. drop written resp ++ more) e
                ∙ sym (
                    drop-append_le written resp (concat responses)
                      (omega (arith, leb-false (length resp) written front)))),
          )
    ]

-- There is no iovec only when nothing is left.
pub build_iovecs-nil :
    (responses : List Bytes) (written room : ℕ)
    → is_nil (build_iovecs responses written (suc room)) ≡ true
    → total responses ≤ written
unfolding build_iovecs total
build_iovecs-nil [] written room h = omega arith
build_iovecs-nil (resp ∷ responses) written room h = elim (Bool-cases (leb (length resp) written)) [
  | inl skip ↦
      let below =
        build_iovecs-nil responses (written - length resp) room (rw (skip, build_iovecs) at h) in
      omega (arith, leb→le (length resp) written skip)
  | inr front ↦ cc (rw (front, build_iovecs) at h)
]

pub build_iovecs-cons :
    (responses : List Bytes) (written room : ℕ)
    → is_nil (build_iovecs responses written room) ≡ false
    → written < total responses
unfolding build_iovecs total
build_iovecs-cons [] written room h = cc
build_iovecs-cons (resp ∷ responses) written zero h = cc
build_iovecs-cons (resp ∷ responses) written (suc room) h =
    elim (Bool-cases (leb (length resp) written)) [
      | inl skip ↦
          let above =
            build_iovecs-cons responses (written - length resp) (suc room)
              (rw (skip, build_iovecs) at h) in
          omega (arith, leb→le (length resp) written skip)
      | inr front ↦ omega (arith, leb-false (length resp) written front)
    ]

pub take-take : (m : ℕ) (xs rest : Bytes) → take (length (take m xs)) (xs ++ rest) ≡ take m xs
take-take zero xs rest = refl
take-take (suc m) [] rest = refl
take-take (suc m) (x ∷ xs) rest = ap (◌∷◌ x) (take-take m xs rest)

pub take_nil : (n : ℕ) → take {A = ℕ} n [] ≡ []
take_nil zero = refl
take_nil (suc n) = refl

pub suc_out : (w k : ℕ) → suc (w + k) ≡ suc w + k
suc_out w k = omega arith

pub take-add : (w k : ℕ) (xs : Bytes) → take w xs ++ take k (drop w xs) ≡ take (w + k) xs
take-add zero k xs = ap (λ i. take i xs) (omega arith)
take-add (suc w) k [] = take_nil k ∙ sym (take_nil (suc w + k))
take-add (suc w) k (x ∷ xs) = ap (◌∷◌ x) (take-add w k xs) ∙ ap (λ i. take i (x ∷ xs)) (suc_out w k)

pub take_all : (n : ℕ) (xs : Bytes) → length xs ≤ n → take n xs ≡ xs
take_all zero [] h = refl
take_all zero (x ∷ xs) h = absurd (omega arith)
take_all (suc n) [] h = refl
take_all (suc n) (x ∷ xs) h = ap (◌∷◌ x) (take_all n xs (omega arith))
