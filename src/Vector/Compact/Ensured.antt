-- ===== src/Vector/Compact/Ensured.antt =====
-- `try_parse_compact_ordered` ends, and a vector that it returns is quantized in every dimension.
use rinha_rust_tree.Prelude.{
  ℕ, zero, suc, ◌+◌, ◌≤◌, ◌<◌, ◌≡◌, refl, false, inl, inr, List, [], ◌∷◌, Option, none, some, arith,
  ◌==◌, Option-cases, Bool-cases, length, get_or, drop, length-drop,
}
use rinha_rust_tree.Prelude.Int.{ℤ}
use rinha_rust_tree.Http.Bytes.{Bytes, codes, slice, starts_with}
use rinha_rust_tree.Index.Table.{QueryVector}
use rinha_rust_tree.Vector.Json.{ParseError, invalid_value, ok_or}
use rinha_rust_tree.Vector.Ensures.{Ensures, Ensures-if, Ensures-and_then}
use rinha_rust_tree.Vector.Floats.{Floats, fast_parse_f64}
use rinha_rust_tree.Vector.Range.{
  RoundsInside, IsVector, set-IsVector, flag-InScale, zeros-IsVector, put-IsVector, last-IsVector,
  finish_vector-IsVector,
}
use rinha_rust_tree.Vector.Dates.{parse_datetime}
use rinha_rust_tree.Vector.Fields.{sign_len, minus_len, digits_len, hash_bytes, keep_hash}
use rinha_rust_tree.Vector.Members.Ensured.{Any}
use rinha_rust_tree.Vector.Skip.Progress.{byte-lt, starts_with-le}
use rinha_rust_tree.Vector.Compact.{
  content_len, decimal_len, consume, read_compact_string, read_compact_i32, read_compact_bool,
  compact_merchants, read_compact_known_merchants, read_compact_f64, read_timestamped,
  read_last_transaction, at_end, Parts, no_parts, compact_transaction, compact_customer,
  compact_merchant, compact_terminal, try_parse_compact_ordered,
}

ok_or-Ensures : {A : Type 0} (e : ParseError) (o : Option A) (i : ℕ) → Ensures Any (ok_or e o i)
ok_or-Ensures e none i = Ensures.refused
ok_or-Ensures e (some a) i = Ensures.holds tt

module _ (json : Bytes) where
  consume-Ensures :
      (expected : Bytes) (i : ℕ)
      → Ensures
          (λ (r : Unit {0} × ℕ).
            (r.1 ≡ i + length expected) × (length expected ≤ length (drop i json)))
          (consume json expected i)
  unfolding consume
  consume-Ensures expected i =
      Ensures-if (starts_with (drop i json) expected)
        (λ e. Ensures.holds (refl, starts_with-le (drop i json) expected e)) (λ e. Ensures.refused)

  read_compact_string-Ensures :
      (i : ℕ) → Ensures (λ (r : Bytes × ℕ). i < r.1) (read_compact_string json i)
  unfolding read_compact_string
  read_compact_string-Ensures i = elim (Option-cases (content_len (drop i json))) [
    | inl e ↦ rw (e, read_compact_string) Ensures.refused
    | inr (n, e) ↦ rw (e, read_compact_string) (Ensures.holds (omega arith))
  ]

  read_compact_i32-Ensures : (i : ℕ) → Ensures Any (read_compact_i32 json i)
  unfolding read_compact_i32
  read_compact_i32-Ensures i =
      Ensures-if (digits_len (drop (i + minus_len (drop i json)) json) == 0) (λ e. Ensures.refused)
        (λ e. Ensures.holds tt)

  read_compact_bool-Ensures : (i : ℕ) → Ensures Any (read_compact_bool json i)
  unfolding read_compact_bool
  read_compact_bool-Ensures i =
      Ensures-if (starts_with (drop i json) (codes "true")) (λ e. Ensures.holds tt)
        (λ e.
          Ensures-if (starts_with (drop i json) (codes "false")) (λ f. Ensures.holds tt)
            (λ f. Ensures.refused))

  compact_merchants-Ensures :
      (fuel : ℕ) (hashes : List ℕ) (i : ℕ)
      → i ≤ length json
      → length json < fuel + i
      → Ensures Any (compact_merchants json fuel hashes i)
  unfolding compact_merchants
  compact_merchants-Ensures zero hashes i h enough = absurd (omega arith)
  compact_merchants-Ensures (suc fuel) hashes i h enough =
      Ensures-and_then (consume-Ensures (34 ∷ []) i) (λ (_, j) e.
        Ensures-and_then (read_compact_string-Ensures j) (λ (value, j') lt.
          elim (Bool-cases (get_or json j' 0 == 44)) [
            | inl c ↦ rw c (
                compact_merchants-Ensures fuel (keep_hash hashes (hash_bytes value)) (j' + 1)
                  (omega (arith, byte-lt json j' 44 c (omega arith))) (omega (arith, e, lt)))
            | inr c ↦
                rw c (
                  Ensures-if (get_or json j' 0 == 93) (λ d. Ensures.holds tt)
                    (λ d. Ensures.refused))
          ]))

  read_compact_known_merchants-Ensures : (i : ℕ) → Ensures Any (read_compact_known_merchants json i)
  unfolding read_compact_known_merchants
  read_compact_known_merchants-Ensures i =
      Ensures-and_then (consume-Ensures (codes "[") i) (λ (_, j) e.
        elim (Bool-cases (get_or json j 0 == 93)) [
          | inl c ↦ rw c (Ensures.holds tt)
          | inr c ↦ rw c (
              compact_merchants-Ensures (length json) [] j (omega (arith, e, length-drop i json))
                (omega (arith, e)))
        ])

  module _ (fl : Floats) (scale : ℕ) (r : RoundsInside fl scale) where
    read_compact_f64-Ensures : (i : ℕ) → Ensures Any (read_compact_f64 json fl scale i)
    unfolding read_compact_f64
    read_compact_f64-Ensures i =
        let n = sign_len (drop i json) in
        Ensures-if (decimal_len (drop (i + n) json) false false).1
          (λ e.
            let count = (decimal_len (drop (i + n) json) false false).0 in
            ok_or-Ensures invalid_value (fast_parse_f64 fl (slice json i (i + n + count)))
              (i + n + count))
          (λ e. Ensures.refused)

    abbrev Good : QueryVector × ℕ → Type 0
    Good (out, i) = IsVector fl scale out

    read_timestamped-Good :
        (minute : ℤ) (out : QueryVector) (i : ℕ)
        → IsVector fl scale out
        → Ensures Good (read_timestamped json fl scale minute out i)
    unfolding read_timestamped
    read_timestamped-Good minute out i g =
        Ensures-and_then (consume-Ensures (codes "{\"timestamp\":\"") i) (λ (_, a) _.
          Ensures-and_then (read_compact_string-Ensures a) (λ (timestamp, b) _.
            Ensures-and_then (ok_or-Ensures invalid_value (parse_datetime timestamp) b)
              (λ (last, c) _.
                Ensures-and_then (consume-Ensures (codes ",\"km_from_current\":") c) (λ (_, d) _.
                  Ensures-and_then (read_compact_f64-Ensures d) (λ (km, e) _.
                    Ensures-and_then (consume-Ensures (codes "}}") e) (λ _ _. Ensures.holds (
                      put-IsVector fl scale r _ 6 _ (omega arith)
                        (put-IsVector fl scale r out 5 _ (omega arith) g))))))))

    read_last_transaction-Good :
        (minute : ℤ) (out : QueryVector) (i : ℕ)
        → IsVector fl scale out
        → Ensures Good (read_last_transaction json fl scale minute out i)
    unfolding read_last_transaction
    read_last_transaction-Good minute out i g =
        elim (Bool-cases (starts_with (drop i json) (codes "null}"))) [
          | inl e ↦ rw (e, read_last_transaction) (Ensures.holds (last-IsVector fl scale r out g))
          | inr e ↦ rw (e, read_last_transaction) (read_timestamped-Good minute out i g)
        ]

    abbrev GoodParts : Parts json fl scale × ℕ → Type 0
    GoodParts (s, i) = IsVector fl scale s.out

    compact_transaction-Keeps :
        (s : Parts json fl scale) (i : ℕ)
        → GoodParts (s, i)
        → Ensures GoodParts (compact_transaction json fl scale s i)
    unfolding compact_transaction
    compact_transaction-Keeps s i good =
        Ensures-and_then (consume-Ensures (codes "{\"id\":\"") i) (λ (_, a) _.
          Ensures-and_then (read_compact_string-Ensures a) (λ (x, b) _.
            Ensures-and_then (consume-Ensures (codes ",\"transaction\":{\"amount\":") b)
              (λ (_, c) _. Ensures-and_then (read_compact_f64-Ensures c) (λ (amount, d) _.
                Ensures-and_then (consume-Ensures (codes ",\"installments\":") d) (λ (_, e) _.
                  Ensures-and_then (read_compact_i32-Ensures e) (λ (z, f) _.
                    Ensures-and_then (consume-Ensures (codes ",\"requested_at\":\"") f) (λ (_, g) _.
                      Ensures-and_then (read_compact_string-Ensures g) (λ (text, h) _.
                        Ensures-and_then (ok_or-Ensures invalid_value (parse_datetime text) h)
                          (λ (w, j) _. Ensures.holds (
                            put-IsVector fl scale r _ 4 _ (omega arith) (
                              put-IsVector fl scale r _ 3 _ (omega arith) (
                                put-IsVector fl scale r _ 1 _ (omega arith)
                                  (put-IsVector fl scale r _ 0 _ (omega arith) good)))))))))))))

    compact_customer-Keeps :
        (s : Parts json fl scale) (i : ℕ)
        → GoodParts (s, i)
        → Ensures GoodParts (compact_customer json fl scale s i)
    unfolding compact_customer
    compact_customer-Keeps s i good =
        Ensures-and_then (consume-Ensures (codes "},\"customer\":{\"avg_amount\":") i) (λ (_, a) _.
          Ensures-and_then (read_compact_f64-Ensures a) (λ (x, b) _.
            Ensures-and_then (consume-Ensures (codes ",\"tx_count_24h\":") b) (λ (_, c) _.
              Ensures-and_then (read_compact_i32-Ensures c) (λ (z, d) _.
                Ensures-and_then (consume-Ensures (codes ",\"known_merchants\":") d) (λ (_, e) _.
                  Ensures-and_then (read_compact_known_merchants-Ensures e) (λ (w, f) _.
                    Ensures.holds (put-IsVector fl scale r _ 8 _ (omega arith) good)))))))

    compact_merchant-Keeps :
        (s : Parts json fl scale) (i : ℕ)
        → GoodParts (s, i)
        → Ensures GoodParts (compact_merchant json fl scale s i)
    unfolding compact_merchant
    compact_merchant-Keeps s i good =
        Ensures-and_then (consume-Ensures (codes "},\"merchant\":{\"id\":\"") i) (λ (_, a) _.
          Ensures-and_then (read_compact_string-Ensures a) (λ (x, b) _.
            Ensures-and_then (consume-Ensures (codes ",\"mcc\":\"") b) (λ (_, c) _.
              Ensures-and_then (read_compact_string-Ensures c) (λ (y, d) _.
                Ensures-and_then (consume-Ensures (codes ",\"avg_amount\":") d) (λ (_, e) _.
                  Ensures-and_then (read_compact_f64-Ensures e) (λ (z, f) _. Ensures.holds (
                    put-IsVector fl scale r _ 13 _ (omega arith)
                      (put-IsVector fl scale r _ 12 _ (omega arith) good))))))))

    compact_terminal-Keeps :
        (s : Parts json fl scale) (i : ℕ)
        → GoodParts (s, i)
        → Ensures GoodParts (compact_terminal json fl scale s i)
    unfolding compact_terminal
    compact_terminal-Keeps s i good =
        Ensures-and_then (consume-Ensures (codes "},\"terminal\":{\"is_online\":") i) (λ (_, a) _.
          Ensures-and_then (read_compact_bool-Ensures a) (λ (x, b) _.
            Ensures-and_then (consume-Ensures (codes ",\"card_present\":") b) (λ (_, c) _.
              Ensures-and_then (read_compact_bool-Ensures c) (λ (y, d) _.
                Ensures-and_then (consume-Ensures (codes ",\"km_from_home\":") d) (λ (_, e) _.
                  Ensures-and_then (read_compact_f64-Ensures e) (λ (z, f) _.
                    Ensures-and_then (consume-Ensures (codes "},\"last_transaction\":") f)
                      (λ (_, g) _. Ensures.holds (
                        put-IsVector fl scale r _ 7 _ (omega arith) (
                          set-IsVector fl scale _ 10 _ (omega arith) (flag-InScale fl scale y) (
                            set-IsVector fl scale _ 9 _ (omega arith) (flag-InScale fl scale x)
                              good))))))))))

    at_end-Good :
        (out : QueryVector) (i : ℕ)
        → IsVector fl scale out
        → Ensures Good (at_end json fl scale out i)
    unfolding at_end
    at_end-Good out i g =
        Ensures-if (i == length json) (λ e. Ensures.holds g) (λ e. Ensures.refused)

    pub try_parse_compact_ordered-Ensures : Ensures Good (try_parse_compact_ordered json fl scale 0)
    unfolding try_parse_compact_ordered
    try_parse_compact_ordered-Ensures =
        Ensures-and_then
          (compact_transaction-Keeps (no_parts json fl scale) 0 (zeros-IsVector fl scale))
          (λ (s, a) g. Ensures-and_then (compact_customer-Keeps s a g) (λ (s, b) g.
            Ensures-and_then (compact_merchant-Keeps s b g) (λ (s, c) g.
              Ensures-and_then (compact_terminal-Keeps s c g) (λ (s, d) g.
                Ensures-and_then (read_last_transaction-Good s.requested_minute s.out d g)
                  (λ (out, e) g. Ensures-and_then (at_end-Good out e g) (λ (out, f) g.
                    Ensures.holds (
                      finish_vector-IsVector fl scale r out s.amount s.customer_avg_amount
                        s.merchant_hash s.known_hashes g)))))))
