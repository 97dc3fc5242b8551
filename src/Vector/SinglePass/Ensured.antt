-- ===== src/Vector/SinglePass/Ensured.antt =====
-- `try_parse_single_pass` ends, and a vector that it returns is quantized in every dimension.
use rinha_rust_tree.Prelude.{
  ℕ, suc, ◌+◌, ◌≤◌, false, not, inl, inr, Option, none, some, arith, ◌==◌, Option-cases, length,
  get_or, take, drop,
}
use rinha_rust_tree.Http.Bytes.{Bytes, codes, same_bytes, starts_with}
use rinha_rust_tree.Index.Table.{QueryVector}
use rinha_rust_tree.Vector.Json.{ParseError}
use rinha_rust_tree.Vector.Ensures.{Ensures, Ensures-if, Ensures-and_then}
use rinha_rust_tree.Vector.Floats.{Floats, fast_parse_f64}
use rinha_rust_tree.Vector.Range.{
  RoundsInside, IsVector, set-IsVector, flag-InScale, zeros-IsVector, put-IsVector, last-IsVector,
  finish_vector-IsVector,
}
use rinha_rust_tree.Vector.Fields.{
  read_double_at, read_int_at, read_bool_at, read_string_at, string_end, or_text, sign_len,
  minus_len, digits_len, number_len,
}
use rinha_rust_tree.Vector.Dates.{parse_datetime}
use rinha_rust_tree.Vector.Skip.{skip_ws}
use rinha_rust_tree.Vector.Skip.Progress.{Moved, byte-lt, skip_value-Moved}
use rinha_rust_tree.Vector.Members.Ensured.{
  Any, read_known_merchants_at-Ensures, object-Kept, outer_members-Ensures,
}
use rinha_rust_tree.Vector.SinglePass.{
  or_invalid, Pass, first_pass, transaction_field, customer_field, merchant_field, terminal_field,
  last_field, skip_other, read_last, section, complete, finish_last, finish_pass,
  try_parse_single_pass,
}

or_text-Ensures {ℓ} : {A : Type ℓ} (o p : Option A) → Ensures {A = A} Any (or_text o p)
or_text-Ensures (some a) p = Ensures.holds tt
or_text-Ensures none (some a) = Ensures.holds tt
or_text-Ensures none none = Ensures.refused

read_double_at-Ensures :
    (fl : Floats) (json : Bytes) (i : ℕ) → Ensures Any (read_double_at fl json i)
unfolding read_double_at
read_double_at-Ensures fl json i =
    let s = drop i json in
    let end = sign_len s + (number_len (drop (sign_len s) s) false false).0 in
    Ensures-if (end == 0) (λ e. Ensures.refused)
      (λ e. or_text-Ensures (fast_parse_f64 fl (take end s)) (fl.from_text (take end s)))

read_int_at-Ensures : (json : Bytes) (i : ℕ) → Ensures Any (read_int_at json i)
unfolding read_int_at
read_int_at-Ensures json i =
    Ensures-if (digits_len (drop (minus_len (drop i json)) (drop i json)) == 0)
      (λ e. Ensures.refused) (λ e. Ensures.holds tt)

read_bool_at-Ensures : (json : Bytes) (i : ℕ) → Ensures Any (read_bool_at json i)
unfolding read_bool_at
read_bool_at-Ensures json i =
    Ensures-if (starts_with (drop i json) (codes "true")) (λ e. Ensures.holds tt)
      (λ e.
        Ensures-if (starts_with (drop i json) (codes "false")) (λ f. Ensures.holds tt)
          (λ f. Ensures.refused))

read_string_at-Ensures : (json : Bytes) (i : ℕ) → Ensures Any (read_string_at json i)
unfolding read_string_at
read_string_at-Ensures json i =
    Ensures-if (not (get_or json i 0 == 34)) (λ e. Ensures.refused)
      (λ e. elim (Option-cases (string_end (drop (i + 1) json) (i + 1) false)) [
        | inl f ↦ rw f Ensures.refused
        | inr (j, f) ↦ rw f (Ensures.holds tt)
      ])

or_invalid-Ensures {ℓ} :
    {A : Type ℓ} (e : ParseError) (o : Option A) → Ensures {A = A} Any (or_invalid e o)
or_invalid-Ensures e none = Ensures.refused
or_invalid-Ensures e (some a) = Ensures.holds tt

module _ (fl : Floats) (scale : ℕ) (r : RoundsInside fl scale) (json : Bytes) where
  abbrev Good : Pass fl → Type 0
  Good s = IsVector fl scale s.out

  transaction_field-Good :
      (k : Bytes) (v : ℕ) (s : Pass fl)
      → Good s
      → Ensures Good (transaction_field fl scale json k v s)
  unfolding transaction_field
  transaction_field-Good k v s g =
      Ensures-if (same_bytes k (codes "amount"))
        (λ e.
          Ensures-and_then (read_double_at-Ensures fl json v)
            (λ x _. Ensures.holds (put-IsVector fl scale r s.out 0 _ (omega arith) g)))
        (λ e.
          Ensures-if (same_bytes k (codes "installments"))
            (λ e.
              Ensures-and_then (read_int_at-Ensures json v)
                (λ x _. Ensures.holds (put-IsVector fl scale r s.out 1 _ (omega arith) g)))
            (λ e.
              Ensures-if (same_bytes k (codes "requested_at"))
                (λ e. Ensures-and_then (read_string_at-Ensures json v) (λ text _.
                  Ensures-and_then (or_invalid-Ensures _ (parse_datetime text)) (λ parsed _.
                    Ensures.holds (
                      put-IsVector fl scale r _ 4 _ (omega arith)
                        (put-IsVector fl scale r s.out 3 _ (omega arith) g)))))
                (λ e. Ensures.holds g)))

  customer_field-Good :
      (k : Bytes) (v : ℕ) (s : Pass fl) → Good s → Ensures Good (customer_field fl scale json k v s)
  unfolding customer_field
  customer_field-Good k v s g =
      Ensures-if (same_bytes k (codes "avg_amount"))
        (λ e. Ensures-and_then (read_double_at-Ensures fl json v) (λ x _. Ensures.holds g))
        (λ e.
          Ensures-if (same_bytes k (codes "tx_count_24h"))
            (λ e.
              Ensures-and_then (read_int_at-Ensures json v)
                (λ x _. Ensures.holds (put-IsVector fl scale r s.out 8 _ (omega arith) g)))
            (λ e.
              Ensures-if (same_bytes k (codes "known_merchants"))
                (λ e.
                  Ensures-and_then (read_known_merchants_at-Ensures json v)
                    (λ x _. Ensures.holds g))
                (λ e. Ensures.holds g)))

  merchant_field-Good :
      (k : Bytes) (v : ℕ) (s : Pass fl) → Good s → Ensures Good (merchant_field fl scale json k v s)
  unfolding merchant_field
  merchant_field-Good k v s g =
      Ensures-if (same_bytes k (codes "id"))
        (λ e. Ensures-and_then (read_string_at-Ensures json v) (λ x _. Ensures.holds g))
        (λ e.
          Ensures-if (same_bytes k (codes "mcc"))
            (λ e.
              Ensures-and_then (read_string_at-Ensures json v)
                (λ x _. Ensures.holds (put-IsVector fl scale r s.out 12 _ (omega arith) g)))
            (λ e.
              Ensures-if (same_bytes k (codes "avg_amount"))
                (λ e.
                  Ensures-and_then (read_double_at-Ensures fl json v)
                    (λ x _. Ensures.holds (put-IsVector fl scale r s.out 13 _ (omega arith) g)))
                (λ e. Ensures.holds g)))

  terminal_field-Good :
      (k : Bytes) (v : ℕ) (s : Pass fl) → Good s → Ensures Good (terminal_field fl scale json k v s)
  unfolding terminal_field
  terminal_field-Good k v s g =
      Ensures-if (same_bytes k (codes "is_online"))
        (λ e. Ensures-and_then (read_bool_at-Ensures json v) (λ x _.
          Ensures.holds
            (set-IsVector fl scale s.out 9 _ (omega arith) (flag-InScale fl scale x) g)))
        (λ e.
          Ensures-if (same_bytes k (codes "card_present"))
            (λ e. Ensures-and_then (read_bool_at-Ensures json v) (λ x _.
              Ensures.holds
                (set-IsVector fl scale s.out 10 _ (omega arith) (flag-InScale fl scale x) g)))
            (λ e.
              Ensures-if (same_bytes k (codes "km_from_home"))
                (λ e.
                  Ensures-and_then (read_double_at-Ensures fl json v)
                    (λ x _. Ensures.holds (put-IsVector fl scale r s.out 7 _ (omega arith) g)))
                (λ e. Ensures.holds g)))

  last_field-Good :
      (k : Bytes) (v : ℕ) (s : Pass fl) → Good s → Ensures Good (last_field fl scale json k v s)
  unfolding last_field
  last_field-Good k v s g =
      Ensures-if (same_bytes k (codes "timestamp"))
        (λ e. Ensures-and_then (read_string_at-Ensures json v) (λ text _.
          Ensures-and_then (or_invalid-Ensures _ (parse_datetime text))
            (λ parsed _. Ensures.holds g)))
        (λ e.
          Ensures-if (same_bytes k (codes "km_from_current"))
            (λ e. Ensures-and_then (read_double_at-Ensures fl json v) (λ x _. Ensures.holds g))
            (λ e. Ensures.holds g))

  abbrev After : ℕ → Pass fl × ℕ → Type 0
  After v t = Good t.0 × Moved json v t.1

  skip_other-After :
      (v : ℕ) (s : Pass fl)
      → v ≤ length json
      → Good s
      → Ensures (After v) (skip_other fl scale json v s)
  unfolding skip_other
  skip_other-After v s h g =
      Ensures-and_then (skip_value-Moved json v h) (λ i m. Ensures.holds (g, m))

  read_last-After :
      (v : ℕ) (s : Pass fl)
      → v ≤ length json
      → Good s
      → Ensures (After v) (read_last fl scale json v s)
  unfolding read_last
  read_last-After v s h g =
      Ensures-if (get_or json v 0 == 110) (λ e. skip_other-After v _ h g)
        (λ e. object-Kept json Good (last_field fl scale json) last_field-Good v _ g)

  section-After :
      (key : Bytes) (v : ℕ) (s : Pass fl)
      → v ≤ length json
      → Good s
      → Ensures (After v) (section fl scale json key v s)
  unfolding section
  section-After key v s h g =
      Ensures-if (same_bytes key (codes "transaction"))
        (λ e. object-Kept json Good _ transaction_field-Good v s g)
        (λ e.
          Ensures-if (same_bytes key (codes "customer"))
            (λ e. object-Kept json Good _ customer_field-Good v s g)
            (λ e.
              Ensures-if (same_bytes key (codes "merchant"))
                (λ e. object-Kept json Good _ merchant_field-Good v s g)
                (λ e.
                  Ensures-if (same_bytes key (codes "terminal"))
                    (λ e. object-Kept json Good _ terminal_field-Good v s g)
                    (λ e.
                      Ensures-if (same_bytes key (codes "last_transaction"))
                        (λ e. read_last-After v s h g) (λ e. skip_other-After v s h g)))))

  finish_last-IsVector :
      (s : Pass fl) (out : QueryVector)
      → IsVector fl scale out
      → Ensures (IsVector fl scale) (finish_last fl scale json s out)
  unfolding finish_last
  finish_last-IsVector s out i = elim (Option-cases s.last_timestamp) [
    | inl e ↦ elim (Option-cases s.last_km_from_current) [
      | inl f ↦ rw (e, f) (Ensures.holds (last-IsVector fl scale r out i))
      | inr (km, f) ↦ rw (e, f) Ensures.refused
    ]
    | inr (minute, e) ↦ elim (Option-cases s.last_km_from_current) [
      | inl f ↦ rw (e, f) Ensures.refused
      | inr (km, f) ↦
          rw (e, f)
            (Ensures.holds (
              put-IsVector fl scale r _ 6 _ (omega arith)
                (put-IsVector fl scale r out 5 _ (omega arith) i)))
    ]
  ]

  finish_pass-IsVector :
      (s : Pass fl) → Good s → Ensures (IsVector fl scale) (finish_pass fl scale json s)
  unfolding finish_pass
  finish_pass-IsVector s g =
      Ensures-if (complete fl scale json s)
        (λ e. finish_last-IsVector s _ (
          finish_vector-IsVector fl scale r s.out s.amount s.customer_avg_amount s.merchant_hash
            s.known_hashes g))
        (λ e. Ensures.refused)

  pub try_parse_single_pass-Ensures :
      Ensures (IsVector fl scale) (try_parse_single_pass fl scale json)
  unfolding try_parse_single_pass
  try_parse_single_pass-Ensures =
      Ensures-if (get_or json (skip_ws json 0) 0 == 123)
        (λ e.
          let lt = byte-lt json (skip_ws json 0) 123 e (omega arith) in
          Ensures-and_then
            (outer_members-Ensures json Good (section fl scale json) section-After
              (suc (length json)) (skip_ws json 0 + 1) (first_pass fl) (omega (arith, lt))
              (omega arith) (zeros-IsVector fl scale))
            finish_pass-IsVector)
        (λ e. Ensures.refused)
