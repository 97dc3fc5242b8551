-- ===== src/Vector/Compact.antt =====
-- src/vector/compact.rs: the parser of a transaction without spaces and with its fields in order.
-- `out` is a value; on an error the caller does not read it. The minutes of two dates do not
-- saturate the subtraction of i64.
pub mod Ensured
use rinha_rust_tree.Prelude.{
  ℕ, zero, suc, ◌+◌, ◌-◌, ◌*◌, ◌%◌, ◌^◌, Bool, true, false, not, ◌&&◌, ◌||◌, List, [], ◌∷◌, ◌++◌,
  Option, none, some, ltb, leb, ◌==◌, if◌then◌else◌, length, get_or, set, take, drop, replicate,
}
use rinha_rust_tree.Prelude.Int.{ℤ, pos, ◌-ℤ◌}
use rinha_rust_tree.Http.Bytes.{Bytes, codes, slice, starts_with}
use rinha_rust_tree.Index.Table.{QueryVector}
use rinha_rust_tree.Vector.Json.{
  Result, ok, invalid, out_of_fuel, invalid_value, invalid_format, Reader, ◌>>=◌, pure, fail, ok_or,
}
use rinha_rust_tree.Vector.Floats.{
  Floats, is_digit, quantize, scaled, scaled_f64, minus_scale, mcc_risk, finish_vector,
  fast_parse_f64,
}
use rinha_rust_tree.Vector.Fields.{
  is_sign, sign_len, minus_len, digits_len, hash_bytes, keep_hash, wrapping_digits, signed_i32,
}
use rinha_rust_tree.Vector.Dates.{ParsedDateTime, parse_datetime, parse_mcc}

-- the length of the content, up to the quote; a backslash is refused
unfoldable pub content_len : Bytes → Option ℕ
content_len [] = none
content_len (b ∷ s) =
    let rest = content_len s in
    if b == 34
    then some 0
    else if b == 92
    then none
    else elim rest [ none ↦ none | some n ↦ some (suc n) ]

-- Digits and one point: their length, and whether there is a digit.
unfoldable pub decimal_len : Bytes → Bool → Bool → ℕ × Bool
decimal_len [] seen_dot seen_digit = (0, seen_digit)
decimal_len (b ∷ s) seen_dot seen_digit =
    let dot = b == 46 && not seen_dot in
    let (n, found) = decimal_len s (seen_dot || dot) (seen_digit || is_digit b) in
    if is_digit b || dot then (suc n, found) else (0, seen_digit)

module _ (json : Bytes) where
  unfoldable pub consume : Bytes → Reader (Unit {0})
  unfolding starts_with
  consume expected i =
      if starts_with (drop i json) expected
      then ok (tt, i + length expected)
      else invalid invalid_format

  unfoldable pub read_compact_string : Reader Bytes
  unfolding content_len
  read_compact_string i = elim (content_len (drop i json)) [
    | none ↦ invalid invalid_format
    | some n ↦ ok (slice json i (i + n), i + n + 1)
  ]

  unfoldable pub read_compact_i32 : Reader ℤ
  unfolding digits_len wrapping_digits signed_i32
  read_compact_i32 i =
      let n = minus_len (drop i json) in
      let count = digits_len (drop (i + n) json) in
      if count == 0
      then invalid invalid_value
      else ok (
        signed_i32 (n == 1) (wrapping_digits 0 (slice json (i + n) (i + n + count))),
        i + n + count,
      )

  unfoldable pub read_compact_bool : Reader Bool
  unfolding starts_with
  read_compact_bool i =
      if starts_with (drop i json) (codes "true")
      then ok (true, i + 4)
      else if starts_with (drop i json) (codes "false")
      then ok (false, i + 5)
      else invalid invalid_value

  -- The `loop`, which a comma leads back to.
  unfoldable pub compact_merchants : ℕ → List ℕ → Reader (List ℕ)
  unfolding consume read_compact_string hash_bytes
  compact_merchants zero hashes i = out_of_fuel
  compact_merchants (suc fuel) hashes i =
      (do
        _ ← consume (34 ∷ [])
        value ← read_compact_string
        let kept = keep_hash hashes (hash_bytes value)
        λ j. elim (get_or json j 0 == 44) [
          | true ↦ compact_merchants fuel kept (j + 1)
          | false ↦ if get_or json j 0 == 93 then ok (kept, j + 1) else invalid invalid_format
        ])
        i

  unfoldable pub read_compact_known_merchants : Reader (List ℕ)
  unfolding compact_merchants
  read_compact_known_merchants = do
    _ ← consume (codes "[")
    λ i. elim (get_or json i 0 == 93) [
      | true ↦ ok ([], i + 1)
      | false ↦ compact_merchants (length json) [] i
    ]

  module _ (fl : Floats) (scale : ℕ) where
    unfoldable pub read_compact_f64 : Reader fl.F64
    unfolding decimal_len fast_parse_f64
    read_compact_f64 i =
        let n = sign_len (drop i json) in
        let (count, seen_digit) = decimal_len (drop (i + n) json) false false in
        if seen_digit
        then ok_or invalid_value (fast_parse_f64 fl (slice json i (i + n + count))) (i + n + count)
        else invalid invalid_value

    abbrev flag : Bool → ℤ
    flag b = if b then pos scale else pos 0

    -- a last transaction that is there
    unfoldable pub read_timestamped : ℤ → QueryVector → Reader QueryVector
    unfolding consume read_compact_string read_compact_f64 parse_datetime ◌-ℤ◌
    read_timestamped requested_minute out = do
      _ ← consume (codes "{\"timestamp\":\"")
      timestamp ← read_compact_string
      last ← ok_or invalid_value (parse_datetime timestamp)
      let out = set out 5 (scaled fl scale (requested_minute -ℤ last.epoch_minute) 1440)
      _ ← consume (codes ",\"km_from_current\":")
      km_from_current ← read_compact_f64
      let out = set out 6 (scaled_f64 fl scale km_from_current 1000)
      _ ← consume (codes "}}")
      pure out

    -- From the place behind `"last_transaction":` on.
    unfoldable pub read_last_transaction : ℤ → QueryVector → Reader QueryVector
    unfolding read_timestamped
    read_last_transaction requested_minute out i =
        elim (starts_with (drop i json) (codes "null}")) [
          | true ↦ ok (set (set out 5 (minus_scale fl scale)) 6 (minus_scale fl scale), i + 5)
          | false ↦ read_timestamped requested_minute out i
        ]

    unfoldable pub at_end : QueryVector → Reader QueryVector
    at_end out i = if i == length json then ok (out, i) else invalid invalid_format

    -- what the sections leave for `finish_vector`
    pub record Parts : Type 0 where
      pub out : QueryVector
      pub amount : fl.F64
      pub requested_minute : ℤ
      pub customer_avg_amount : fl.F64
      pub known_hashes : List ℕ
      pub merchant_hash : ℕ

    abbrev pub no_parts : Parts
    no_parts = record {
      out = replicate 16 (pos 0);
      amount = fl.of_int (pos 0);
      requested_minute = pos 0;
      customer_avg_amount = fl.of_int (pos 0);
      known_hashes = [];
      merchant_hash = 0;
    }

    abbrev pub write : ℕ → ℤ → Parts → Parts
    write d v s = record s { out = set s.out d v }

    unfoldable pub compact_transaction : Parts → Reader Parts
    unfolding consume read_compact_string read_compact_f64 read_compact_i32 parse_datetime quantize
    compact_transaction s = do
      _ ← consume (codes "{\"id\":\"")
      _ ← read_compact_string
      _ ← consume (codes ",\"transaction\":{\"amount\":")
      amount ← read_compact_f64
      let s = write 0 (scaled_f64 fl scale amount 10000) (record s { amount = amount })
      _ ← consume (codes ",\"installments\":")
      installments ← read_compact_i32
      let s = write 1 (scaled fl scale installments 12) s
      _ ← consume (codes ",\"requested_at\":\"")
      requested_at ← read_compact_string
      requested ← ok_or invalid_value (parse_datetime requested_at)
      pure (
          write 4 (scaled fl scale requested.day_of_week 6) (
            write 3 (scaled fl scale (pos requested.hour) 23)
              (record s { requested_minute = requested.epoch_minute })))

    unfoldable pub compact_customer : Parts → Reader Parts
    unfolding consume read_compact_f64 read_compact_i32 read_compact_known_merchants quantize
    compact_customer s = do
      _ ← consume (codes "},\"customer\":{\"avg_amount\":")
      customer_avg_amount ← read_compact_f64
      _ ← consume (codes ",\"tx_count_24h\":")
      tx_count_24h ← read_compact_i32
      let s = write 8 (scaled fl scale tx_count_24h 20) s
      _ ← consume (codes ",\"known_merchants\":")
      known_hashes ← read_compact_known_merchants
      pure (record s { customer_avg_amount = customer_avg_amount; known_hashes = known_hashes })

    unfoldable pub compact_merchant : Parts → Reader Parts
    unfolding consume read_compact_string read_compact_f64 parse_mcc mcc_risk hash_bytes quantize
    compact_merchant s = do
      _ ← consume (codes "},\"merchant\":{\"id\":\"")
      merchant_id ← read_compact_string
      let s = record s { merchant_hash = hash_bytes merchant_id }
      _ ← consume (codes ",\"mcc\":\"")
      mcc ← read_compact_string
      let s = write 12 (quantize fl scale (mcc_risk fl (parse_mcc mcc))) s
      _ ← consume (codes ",\"avg_amount\":")
      merchant_avg_amount ← read_compact_f64
      pure (write 13 (scaled_f64 fl scale merchant_avg_amount 10000) s)

    unfoldable pub compact_terminal : Parts → Reader Parts
    unfolding consume read_compact_f64 read_compact_bool quantize
    compact_terminal s = do
      _ ← consume (codes "},\"terminal\":{\"is_online\":")
      is_online ← read_compact_bool
      let s = write 9 (flag is_online) s
      _ ← consume (codes ",\"card_present\":")
      card_present ← read_compact_bool
      let s = write 10 (flag card_present) s
      _ ← consume (codes ",\"km_from_home\":")
      km_from_home ← read_compact_f64
      let s = write 7 (scaled_f64 fl scale km_from_home 1000) s
      _ ← consume (codes "},\"last_transaction\":")
      pure s

    unfoldable pub try_parse_compact_ordered : Reader QueryVector
    unfolding compact_transaction compact_customer compact_merchant compact_terminal
        read_last_transaction at_end finish_vector
    try_parse_compact_ordered = do
      s ← compact_transaction no_parts
      s ← compact_customer s
      s ← compact_merchant s
      s ← compact_terminal s
      out ← read_last_transaction s.requested_minute s.out
      out ← at_end out
      pure
          (finish_vector fl scale out s.amount s.customer_avg_amount s.merchant_hash s.known_hashes)
