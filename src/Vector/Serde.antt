-- ===== src/Vector/Serde.antt =====
-- src/vector/serde_fallback.rs: the parser on top of serde_json. An error of the crate ends the parse
-- with `InvalidFormat`.
use rinha_rust_tree.Prelude.{ℕ, Bool, map, Option, none, some, if◌then◌else◌, set, take, replicate}
use rinha_rust_tree.Prelude.Int.{ℤ, pos, ◌-ℤ◌}
use rinha_rust_tree.Http.Bytes.{Bytes}
use rinha_rust_tree.Http.Parser.{◌>>=◌}
use rinha_rust_tree.Index.Table.{QueryVector}
use rinha_rust_tree.Vector.Json.{Result, ok, invalid, invalid_value, invalid_format, and_then}
use rinha_rust_tree.Vector.Floats.{
  Floats, quantize, scaled, scaled_f64, minus_scale, mcc_risk, finish_vector,
}
use rinha_rust_tree.Vector.Fields.{hash_bytes}
use rinha_rust_tree.Vector.Dates.{ParsedDateTime, parse_datetime, parse_mcc}
use rinha_rust_tree.Vector.Payload.{Serde, Payload, LastTransaction, payload_of}

module _ (fl : Floats) (sd : Serde fl.F64) (scale : ℕ) where
  abbrev flag : Bool → ℤ
  flag b = if b then pos scale else pos 0

  unfoldable pub last_dimensions :
      Option (LastTransaction fl sd) → ℤ → QueryVector → Result QueryVector
  unfolding parse_datetime ◌-ℤ◌ quantize
  last_dimensions none requested_minute out =
      ok (set (set out 5 (minus_scale fl scale)) 6 (minus_scale fl scale))
  last_dimensions (some l) requested_minute out = elim (parse_datetime l.timestamp) [
    | none ↦ invalid invalid_value
    | some parsed ↦ ok (
        set (set out 5 (scaled fl scale (requested_minute -ℤ parsed.epoch_minute) 1440)) 6
          (scaled_f64 fl scale l.km_from_current 1000))
  ]

  unfoldable pub plain_dimensions : Payload fl sd → ParsedDateTime → QueryVector
  unfolding quantize mcc_risk parse_mcc
  plain_dimensions p requested =
      let out = replicate 16 (pos 0) in
      let out = set out 0 (scaled_f64 fl scale p.transaction.amount 10000) in
      let out = set out 1 (scaled fl scale p.transaction.installments 12) in
      let out = set out 3 (scaled fl scale (pos requested.hour) 23) in
      let out = set out 4 (scaled fl scale requested.day_of_week 6) in
      let out = set out 7 (scaled_f64 fl scale p.terminal.km_from_home 1000) in
      let out = set out 8 (scaled fl scale p.customer.tx_count_24h 20) in
      let out = set out 9 (flag p.terminal.is_online) in
      let out = set out 10 (flag p.terminal.card_present) in
      let out = set out 12 (quantize fl scale (mcc_risk fl (parse_mcc p.merchant.mcc))) in
      set out 13 (scaled_f64 fl scale p.merchant.avg_amount 10000)

  abbrev finish_payload : Payload fl sd → QueryVector → QueryVector
  finish_payload p out =
      finish_vector fl scale out p.transaction.amount p.customer.avg_amount
        (hash_bytes p.merchant.id) (map hash_bytes (take 64 p.customer.known_merchants))

  unfoldable pub vector_of : Payload fl sd → Result QueryVector
  unfolding parse_datetime last_dimensions plain_dimensions finish_vector hash_bytes
  vector_of p = elim (parse_datetime p.transaction.requested_at) [
    | none ↦ invalid invalid_value
    | some requested ↦
        and_then
          (last_dimensions p.last_transaction requested.epoch_minute (plain_dimensions p requested))
          λ out. ok (finish_payload p out)
  ]

  unfoldable pub try_parse_serde : Bytes → Result QueryVector
  unfolding payload_of vector_of
  try_parse_serde payload = elim (sd.from_slice payload >>= payload_of fl sd) [
    | none ↦ invalid invalid_format
    | some parsed ↦ vector_of parsed
  ]
