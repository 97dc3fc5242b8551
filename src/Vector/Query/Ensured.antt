-- ===== src/Vector/Query/Ensured.antt =====
-- `parse_query` ends on every payload, and the vectors that it returns are quantized.
use rinha_rust_tree.Prelude.{
  ℕ, ◌≡◌, ◌≢◌, Option, Option-cases, none, some, inl, inr, arith, map, take,
}
use rinha_rust_tree.Prelude.Int.{ℤ}
use rinha_rust_tree.Http.Bytes.{Bytes}
use rinha_rust_tree.Http.Parser.{◌>>=◌}
use rinha_rust_tree.Index.Table.{QueryVector}
use rinha_rust_tree.Vector.Json.{Result, ok, out_of_fuel}
use rinha_rust_tree.Vector.Ensures.{Ensures, Ensures-ok, Ensures-out_of_fuel, Ensures-and_then}
use rinha_rust_tree.Vector.Floats.{Floats}
use rinha_rust_tree.Vector.Fields.{hash_bytes}
use rinha_rust_tree.Vector.Range.{
  RoundsInside, IsVector, put-IsVector, set-IsVector, flag-InScale, zeros-IsVector, last-IsVector,
  finish_vector-IsVector,
}
use rinha_rust_tree.Vector.Dates.{ParsedDateTime, parse_datetime}
use rinha_rust_tree.Vector.Compact.Ensured.{try_parse_compact_ordered-Ensures}
use rinha_rust_tree.Vector.SinglePass.Ensured.{try_parse_single_pass-Ensures}
use rinha_rust_tree.Vector.Payload.{Serde, Payload, LastTransaction, payload_of}
use rinha_rust_tree.Vector.Serde.{last_dimensions, plain_dimensions, vector_of, try_parse_serde}
use rinha_rust_tree.Vector.Query.{or_next, vector, parse_query}

or_next-Ensures :
    (P : QueryVector → Type 0) {r s : Result QueryVector}
    → Ensures P r
    → Ensures P s
    → Ensures P (or_next r s)
or_next-Ensures P (Ensures.holds h) k = Ensures.holds h
or_next-Ensures P Ensures.refused k = k

vector-Ensures :
    (P : QueryVector → Type 0) {r : Result (QueryVector × ℕ)}
    → Ensures (λ (a : QueryVector × ℕ). P a.0) r
    → Ensures P (vector r)
vector-Ensures P (Ensures.holds {a} h) = Ensures.holds h
vector-Ensures P Ensures.refused = Ensures.refused

module _ (fl : Floats) (sd : Serde fl.F64) (scale : ℕ) (r : RoundsInside fl scale) where
  last_dimensions-Ensures :
      (o : Option (LastTransaction fl sd)) (minute : ℤ) (out : QueryVector)
      → IsVector fl scale out
      → Ensures (IsVector fl scale) (last_dimensions fl sd scale o minute out)
  unfolding last_dimensions
  last_dimensions-Ensures none minute out g = Ensures.holds (last-IsVector fl scale r out g)
  last_dimensions-Ensures (some l) minute out g = elim (Option-cases (parse_datetime l.timestamp)) [
    | inl e ↦ rw (e, last_dimensions) Ensures.refused
    | inr (parsed, e) ↦
        rw (e, last_dimensions)
          (Ensures.holds (
            put-IsVector fl scale r _ 6 _ (omega arith)
              (put-IsVector fl scale r out 5 _ (omega arith) g)))
  ]

  plain_dimensions-IsVector :
      (p : Payload fl sd) (requested : ParsedDateTime)
      → IsVector fl scale (plain_dimensions fl sd scale p requested)
  unfolding plain_dimensions
  plain_dimensions-IsVector p requested =
      let a = put-IsVector fl scale r _ 0 _ (omega arith) (zeros-IsVector fl scale) in
      let b =
        put-IsVector fl scale r _ 3 _ (omega arith)
          (put-IsVector fl scale r _ 1 _ (omega arith) a) in
      let c =
        put-IsVector fl scale r _ 7 _ (omega arith)
          (put-IsVector fl scale r _ 4 _ (omega arith) b) in
      let d = put-IsVector fl scale r _ 8 _ (omega arith) c in
      let e =
        set-IsVector fl scale _ 9 _ (omega arith) (flag-InScale fl scale p.terminal.is_online) d in
      let f =
        set-IsVector fl scale _ 10 _ (omega arith) (flag-InScale fl scale p.terminal.card_present)
          e in
      put-IsVector fl scale r _ 13 _ (omega arith) (put-IsVector fl scale r _ 12 _ (omega arith) f)

  vector_of-Ensures : (p : Payload fl sd) → Ensures (IsVector fl scale) (vector_of fl sd scale p)
  unfolding vector_of
  vector_of-Ensures p = elim (Option-cases (parse_datetime p.transaction.requested_at)) [
    | inl e ↦ rw (e, vector_of) Ensures.refused
    | inr (requested, e) ↦
        rw (e, vector_of)
          (Ensures-and_then
            (last_dimensions-Ensures p.last_transaction requested.epoch_minute _
              (plain_dimensions-IsVector p requested))
            (λ out g. Ensures.holds (
              finish_vector-IsVector fl scale r out p.transaction.amount p.customer.avg_amount
                (hash_bytes p.merchant.id) (map hash_bytes (take 64 p.customer.known_merchants))
                g)))
  ]

  try_parse_serde-Ensures :
      (payload : Bytes) → Ensures (IsVector fl scale) (try_parse_serde fl sd scale payload)
  unfolding try_parse_serde
  try_parse_serde-Ensures payload =
      elim (Option-cases (sd.from_slice payload >>= payload_of fl sd)) [
        | inl e ↦ rw (e, try_parse_serde) Ensures.refused
        | inr (p, e) ↦ rw (e, try_parse_serde) (vector_of-Ensures p)
      ]

  parse_query-Ensures :
      (payload : Bytes) → Ensures (IsVector fl scale) (parse_query fl sd scale payload)
  unfolding parse_query
  parse_query-Ensures payload =
      or_next-Ensures (IsVector fl scale)
        (vector-Ensures (IsVector fl scale) (try_parse_compact_ordered-Ensures payload fl scale r))
        (or_next-Ensures (IsVector fl scale) (try_parse_single_pass-Ensures fl scale r payload)
          (try_parse_serde-Ensures payload))

-- Every payload is accepted or refused: none of the parsers' loops runs out of fuel, where rounding
-- stays inside the scale.
pub parse_query-ends :
    (fl : Floats) (sd : Serde fl.F64) (scale : ℕ)
    → RoundsInside fl scale
    → (payload : Bytes) → parse_query fl sd scale payload ≢ out_of_fuel
parse_query-ends fl sd scale r payload =
    Ensures-out_of_fuel (parse_query-Ensures fl sd scale r payload)

-- A vector that is read out of a payload has 16 values from minus the scale to the scale, the last
-- two of them zero, where rounding stays inside the scale.
pub parse_query-IsVector :
    (fl : Floats) (sd : Serde fl.F64) (scale : ℕ)
    → RoundsInside fl scale
    → (payload : Bytes) (out : QueryVector) → parse_query fl sd scale payload ≡ ok out
    → IsVector fl scale out
parse_query-IsVector fl sd scale r payload out e =
    Ensures-ok (parse_query-Ensures fl sd scale r payload) e
