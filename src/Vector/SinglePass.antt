-- ===== src/Vector/SinglePass.antt =====
-- src/vector/single_pass.rs: the parser that takes a transaction's fields in any order.
pub mod Ensured
use rinha_rust_tree.Prelude.{
  ℕ, zero, suc, ◌+◌, ◌-◌, Bool, true, false, not, ◌&&◌, ◌||◌, List, [], ◌∷◌, ◌++◌, Option, none,
  some, ltb, leb, ◌==◌, if◌then◌else◌, length, get_or, set, drop, replicate,
}
use rinha_rust_tree.Prelude.Int.{ℤ, pos, ◌-ℤ◌}
use rinha_rust_tree.Http.Bytes.{Bytes, codes, slice, position, same_bytes}
use rinha_rust_tree.Index.Table.{QueryVector}
use rinha_rust_tree.Vector.Json.{
  Result, ok, invalid, out_of_fuel, ParseError, missing_field, invalid_value, invalid_format,
  and_then,
}
use rinha_rust_tree.Vector.Floats.{
  Floats, quantize, scaled, scaled_f64, minus_scale, mcc_risk, finish_vector,
}
use rinha_rust_tree.Vector.Fields.{
  hash_bytes, keep_hash, read_double_at, read_int_at, read_bool_at, read_string_at,
}
use rinha_rust_tree.Vector.Dates.{ParsedDateTime, parse_datetime, parse_mcc}
use rinha_rust_tree.Vector.Skip.{skip_ws, skip_string, skip_value}
use rinha_rust_tree.Vector.Members.{read_known_merchants_at, object, outer_members}

abbrev pub or_invalid {ℓ} : {A : Type ℓ} → ParseError → Option A → Result A
or_invalid e none = invalid e
or_invalid e (some a) = ok a

module _ (fl : Floats) where
  -- the variables of `try_parse_single_pass`
  pub record Pass : Type 0 where
    pub out : QueryVector
    pub amount : fl.F64
    pub customer_avg_amount : fl.F64
    pub merchant_hash : ℕ
    pub known_hashes : List ℕ
    pub requested_minute : ℤ
    pub has_amount : Bool
    pub has_installments : Bool
    pub has_requested_at : Bool
    pub has_customer_avg_amount : Bool
    pub has_tx_count_24h : Bool
    pub has_known_merchants : Bool
    pub has_merchant_id : Bool
    pub has_mcc : Bool
    pub has_merchant_avg_amount : Bool
    pub has_is_online : Bool
    pub has_card_present : Bool
    pub has_km_from_home : Bool
    pub has_last_transaction : Bool
    pub last_timestamp : Option ℤ
    pub last_km_from_current : Option fl.F64

  abbrev pub first_pass : Pass
  first_pass = record {
    out = replicate 16 (pos 0);
    amount = fl.of_int (pos 0);
    customer_avg_amount = fl.of_int (pos 0);
    merchant_hash = 0;
    known_hashes = [];
    requested_minute = pos 0;
    has_amount = false;
    has_installments = false;
    has_requested_at = false;
    has_customer_avg_amount = false;
    has_tx_count_24h = false;
    has_known_merchants = false;
    has_merchant_id = false;
    has_mcc = false;
    has_merchant_avg_amount = false;
    has_is_online = false;
    has_card_present = false;
    has_km_from_home = false;
    has_last_transaction = false;
    last_timestamp = none;
    last_km_from_current = none;
  }

  module _ (scale : ℕ) (json : Bytes) where
    abbrev pub scale_if : Bool → ℤ
    scale_if b = if b then pos scale else pos 0

    abbrev pub put : ℕ → ℤ → Pass → Pass
    put d v s = record s { out = set s.out d v }

    abbrev named : Bytes → Bytes → Bool
    named = same_bytes

    unfoldable pub transaction_field : Bytes → ℕ → Pass → Result Pass
    unfolding same_bytes read_double_at read_int_at read_string_at parse_datetime quantize
    transaction_field k v_start s =
        if named k (codes "amount")
        then (and_then (read_double_at fl json v_start) λ amount. ok (
            put 0 (scaled_f64 fl scale amount 10000)
              (record s { amount = amount; has_amount = true })))
        else if named k (codes "installments")
        then (and_then (read_int_at json v_start)
            λ v. ok (put 1 (scaled fl scale v 12) (record s { has_installments = true })))
        else if named k (codes "requested_at")
        then (and_then (read_string_at json v_start) λ text.
            and_then (or_invalid invalid_value (parse_datetime text)) λ parsed. ok (
              put 4 (scaled fl scale parsed.day_of_week 6) (
                put 3 (scaled fl scale (pos parsed.hour) 23)
                  (record s { requested_minute = parsed.epoch_minute; has_requested_at = true }))))
        else ok s

    unfoldable pub customer_field : Bytes → ℕ → Pass → Result Pass
    unfolding same_bytes read_double_at read_int_at read_known_merchants_at quantize
    customer_field k v_start s =
        if named k (codes "avg_amount")
        then (and_then (read_double_at fl json v_start)
            λ v. ok (record s { customer_avg_amount = v; has_customer_avg_amount = true }))
        else if named k (codes "tx_count_24h")
        then (and_then (read_int_at json v_start)
            λ v. ok (put 8 (scaled fl scale v 20) (record s { has_tx_count_24h = true })))
        else if named k (codes "known_merchants")
        then (and_then (read_known_merchants_at json v_start)
            λ hashes. ok (record s { known_hashes = hashes; has_known_merchants = true }))
        else ok s

    unfoldable pub merchant_field : Bytes → ℕ → Pass → Result Pass
    unfolding same_bytes read_double_at read_string_at hash_bytes parse_mcc mcc_risk quantize
    merchant_field k v_start s =
        if named k (codes "id")
        then (and_then (read_string_at json v_start)
            λ text. ok (record s { merchant_hash = hash_bytes text; has_merchant_id = true }))
        else if named k (codes "mcc")
        then (and_then (read_string_at json v_start) λ text. ok (
            put 12 (quantize fl scale (mcc_risk fl (parse_mcc text)))
              (record s { has_mcc = true })))
        else if named k (codes "avg_amount")
        then (and_then (read_double_at fl json v_start) λ v.
            ok (put 13 (scaled_f64 fl scale v 10000) (record s { has_merchant_avg_amount = true })))
        else ok s

    unfoldable pub terminal_field : Bytes → ℕ → Pass → Result Pass
    unfolding same_bytes read_double_at read_bool_at quantize
    terminal_field k v_start s =
        if named k (codes "is_online")
        then (and_then (read_bool_at json v_start)
            λ v. ok (put 9 (scale_if v) (record s { has_is_online = true })))
        else if named k (codes "card_present")
        then (and_then (read_bool_at json v_start)
            λ v. ok (put 10 (scale_if v) (record s { has_card_present = true })))
        else if named k (codes "km_from_home")
        then (and_then (read_double_at fl json v_start)
            λ v. ok (put 7 (scaled_f64 fl scale v 1000) (record s { has_km_from_home = true })))
        else ok s

    unfoldable pub last_field : Bytes → ℕ → Pass → Result Pass
    unfolding same_bytes read_double_at read_string_at parse_datetime
    last_field k v_start s =
        if named k (codes "timestamp")
        then (and_then (read_string_at json v_start) λ text.
            and_then (or_invalid invalid_value (parse_datetime text))
              λ parsed. ok (record s { last_timestamp = some parsed.epoch_minute }))
        else if named k (codes "km_from_current")
        then (and_then (read_double_at fl json v_start)
            λ v. ok (record s { last_km_from_current = some v }))
        else ok s

    unfoldable pub skip_other : ℕ → Pass → Result (Pass × ℕ)
    unfolding skip_value
    skip_other i s = and_then (skip_value json i) λ i'. ok (s, i')

    unfoldable pub read_last : ℕ → Pass → Result (Pass × ℕ)
    unfolding skip_other object last_field
    read_last value_start s =
        let c = get_or json value_start 0 in
        let s = record s { has_last_transaction = true } in
        if c == 110 then skip_other value_start s else object json last_field value_start s

    -- the arms of the outer loop
    unfoldable pub section : Bytes → ℕ → Pass → Result (Pass × ℕ)
    unfolding same_bytes object transaction_field customer_field merchant_field terminal_field
        read_last skip_other
    section key value_start s =
        if named key (codes "transaction")
        then object json transaction_field value_start s
        else if named key (codes "customer")
        then object json customer_field value_start s
        else if named key (codes "merchant")
        then object json merchant_field value_start s
        else if named key (codes "terminal")
        then object json terminal_field value_start s
        else if named key (codes "last_transaction")
        then read_last value_start s
        else skip_other value_start s

    abbrev pub complete : Pass → Bool
    complete s =
        s.has_amount && s.has_installments && s.has_requested_at && s.has_customer_avg_amount
        && s.has_tx_count_24h && s.has_known_merchants && s.has_merchant_id && s.has_mcc
        && s.has_merchant_avg_amount && s.has_is_online && s.has_card_present && s.has_km_from_home
        && s.has_last_transaction

    -- The last two values: both of them, or none.
    unfoldable pub finish_last : Pass → QueryVector → Result QueryVector
    unfolding quantize ◌-ℤ◌
    finish_last s out = elim s.last_timestamp [
      | none ↦ elim s.last_km_from_current [
        | none ↦ ok (set (set out 5 (minus_scale fl scale)) 6 (minus_scale fl scale))
        | some _ ↦ invalid invalid_format
      ]
      | some lm ↦ elim s.last_km_from_current [
        | none ↦ invalid invalid_format
        | some lk ↦ ok (
            set (set out 5 (scaled fl scale (s.requested_minute -ℤ lm) 1440)) 6
              (scaled_f64 fl scale lk 1000))
      ]
    ]

    unfoldable pub finish_pass : Pass → Result QueryVector
    unfolding finish_vector finish_last
    finish_pass s =
        if complete s
        then finish_last s (
            finish_vector fl scale s.out s.amount s.customer_avg_amount s.merchant_hash
              s.known_hashes)
        else invalid missing_field

    unfoldable pub try_parse_single_pass : Result QueryVector
    unfolding skip_ws outer_members section finish_pass
    try_parse_single_pass =
        let i = skip_ws json 0 in
        if get_or json i 0 == 123
        then (and_then (outer_members json section (suc (length json)) (i + 1) first_pass)
            finish_pass)
        else invalid invalid_format
