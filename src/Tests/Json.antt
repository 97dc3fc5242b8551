-- ===== src/Tests/Json.antt =====
-- src/vector: a transaction, with whole numbers in the place of f64.
use rinha_rust_tree.Prelude.{◌*◌, ◌≡◌, ◌≢◌, refl, true, false, [], ◌∷◌, none, arith}
use rinha_rust_tree.Prelude.Int.{ℤ, pos, negsuc, pos_part, neg_part, sub_ℕ, ltb_ℤ, ◌+ℤ◌}
use rinha_rust_tree.Http.Bytes.{Bytes, codes}
use rinha_rust_tree.Index.Table.{QueryVector}
use rinha_rust_tree.Index.Search.{leb_ℤ}
use rinha_rust_tree.Vector.Json.{ok, out_of_fuel}
use rinha_rust_tree.Vector.Floats.{Floats}
use rinha_rust_tree.Vector.Range.{RoundsInside, IsVector}
use rinha_rust_tree.Vector.Payload.{Serde}
use rinha_rust_tree.Vector.Query.{parse_query}
use rinha_rust_tree.Vector.Query.Ensured.{parse_query-ends, parse_query-IsVector}

-- Fractions are cut off.
abbrev whole_numbers : Floats
whole_numbers = record {
  F64 = ℤ;
  of_int = λ z. z;
  decimal = λ digits places. pos 0;
  mul = λ a b. pos (pos_part a * pos_part b);
  div = λ a b. pos 0;
  neg = λ a. sub_ℕ (neg_part a) (pos_part a);
  le = leb_ℤ;
  lt = ltb_ℤ;
  round_i16 = λ a. a;
  from_text = λ text. none;
}

no_between : (z : ℤ) → leb_ℤ z (pos 0) ≡ false → leb_ℤ (pos 1) z ≡ true
no_between z h = ground arith

whole_numbers-RoundsInside : RoundsInside whole_numbers 100
whole_numbers-RoundsInside = record {
  rounds = λ value h k. let e = no_between value h in absurd (cc);
}

-- a crate that refuses every text
abbrev no_serde : Serde ℤ
no_serde = record {
  Value = Unit;
  from_slice = λ text. none;
  map_of = λ v. none;
  f64_of = λ v. none;
  i32_of = λ v. none;
  str_of = λ v. none;
  bool_of = λ v. none;
  strs_of = λ v. none;
  is_null = λ v. true;
}

abbrev compact_payload : Bytes
compact_payload =
    codes
      "{\"id\":\"tx\",\"transaction\":{\"amount\":5,\"installments\":2,\"requested_at\":\"2026-03-11T18:45:53Z\"},\"customer\":{\"avg_amount\":3.5,\"tx_count_24h\":4,\"known_merchants\":[\"M-1\",\"M-2\"]},\"merchant\":{\"id\":\"M-2\",\"mcc\":\"5411\",\"avg_amount\":60.2},\"terminal\":{\"is_online\":true,\"card_present\":false,\"km_from_home\":29.1},\"last_transaction\":null}"

abbrev known_vector : QueryVector
known_vector =
    pos 0
    ∷ pos 0
    ∷ pos 100
    ∷ pos 0
    ∷ pos 0
    ∷ negsuc 99
    ∷ negsuc 99
    ∷ pos 0
    ∷ pos 0
    ∷ pos 100
    ∷ pos 0
    ∷ pos 0
    ∷ pos 0
    ∷ pos 0
    ∷ pos 0
    ∷ pos 0
    ∷ []

compact_run : parse_query whole_numbers no_serde 100 compact_payload ≡ ok known_vector
unfolding parse_query ◌+ℤ◌
compact_run = refl

-- the fields in another order, with spaces
abbrev spaced_payload : Bytes
spaced_payload =
    codes
      "{ \"last_transaction\": null, \"terminal\": {\"km_from_home\": 29.1, \"is_online\": true, \"card_present\": false}, \"merchant\": {\"mcc\": \"5411\", \"id\": \"M-2\", \"avg_amount\": 60.2}, \"customer\": {\"avg_amount\": 3.5, \"tx_count_24h\": 4, \"known_merchants\": [\"M-1\", \"M-2\"]}, \"transaction\": {\"amount\": 5, \"installments\": 2, \"requested_at\": \"2026-03-11T18:45:53Z\"}}"

spaced_run : parse_query whole_numbers no_serde 100 spaced_payload ≡ ok known_vector
unfolding parse_query ◌+ℤ◌
spaced_run = refl

parse_query-IsVector_example : IsVector whole_numbers 100 known_vector
parse_query-IsVector_example =
    parse_query-IsVector whole_numbers no_serde 100 whole_numbers-RoundsInside compact_payload
      known_vector compact_run

parse_query-ends_example :
    parse_query whole_numbers no_serde 100 (codes "{\"transaction\":[") ≢ out_of_fuel
parse_query-ends_example =
    parse_query-ends whole_numbers no_serde 100 whole_numbers-RoundsInside
      (codes "{\"transaction\":[")
