-- ===== src/Vector/Members.antt =====
-- src/vector/single_pass.rs: the loops over the members of an object. The five of them over a
-- section have the same text but for the fields that they read, which are the argument `field` of
-- `members`.
pub mod Ensured
use rinha_rust_tree.Prelude.{
  ℕ, zero, suc, ◌+◌, ◌-◌, Bool, true, false, not, ◌&&◌, ◌||◌, List, [], ◌∷◌, ◌++◌, Option, none,
  some, ltb, leb, ◌==◌, if◌then◌else◌, length, get_or, set, drop, replicate,
}
use rinha_rust_tree.Prelude.Int.{ℤ, pos, ◌-ℤ◌}
use rinha_rust_tree.Http.Bytes.{Bytes, codes, slice, position, same_bytes}
use rinha_rust_tree.Index.Table.{QueryVector}
use rinha_rust_tree.Vector.Json.{
  Result, ok, invalid, out_of_fuel, ParseError, missing_field, invalid_value, invalid_format,
  and_then,
}
use rinha_rust_tree.Vector.Floats.{
  Floats, quantize, scaled, scaled_f64, minus_scale, mcc_risk, finish_vector,
}
use rinha_rust_tree.Vector.Fields.{
  hash_bytes, keep_hash, read_double_at, read_int_at, read_bool_at, read_string_at,
}
use rinha_rust_tree.Vector.Dates.{ParsedDateTime, parse_datetime, parse_mcc}
use rinha_rust_tree.Vector.Skip.{skip_ws, skip_string, skip_value}

-- The strings between the quotes, in what stands before the first `]`. `fuel` is the length.
unfoldable pub merchants_from : ℕ → Bytes → List ℕ → Result (List ℕ)
unfolding position hash_bytes
merchants_from zero s hashes = out_of_fuel
merchants_from (suc fuel) s hashes = elim (position (λ b. b == 34) s) [
  | none ↦ ok hashes
  | some i ↦
      let content = drop (i + 1) s in
      elim (position (λ b. b == 34) content) [
        | none ↦ invalid invalid_format
        | some rel ↦
            merchants_from fuel (drop (rel + 1) content)
              (keep_hash hashes (hash_bytes (slice content 0 rel)))
      ]
]

unfoldable pub read_known_merchants_at : Bytes → ℕ → Result (List ℕ)
unfolding merchants_from
read_known_merchants_at json start =
    if not (get_or json start 0 == 91)
    then invalid invalid_format
    else elim (position (λ b. b == 93) (drop start json)) [
      | none ↦ invalid invalid_format
      | some rel_end ↦
          merchants_from (suc (length json)) (slice json (start + 1) (start + rel_end)) []
    ]

module _ (json : Bytes) where
  -- The comma behind a member may be missing.
  abbrev pub after_comma : ℕ → ℕ
  after_comma i = let j = skip_ws json i in if get_or json j 0 == 44 then j + 1 else j

module _ {S : Type 0} (json : Bytes) (field : Bytes → ℕ → S → Result S) where
  -- A member: its key, the colon, the value that `field` reads, and where the value ends.
  unfoldable pub member : ℕ → S → Result (S × ℕ)
  unfolding skip_ws skip_string skip_value
  member i s =
      if not (get_or json i 0 == 34)
      then invalid invalid_format
      else and_then (skip_string json i) λ k_end.
        let k = slice json (i + 1) (k_end - 1) in
        let colon = skip_ws json k_end in
        if not (get_or json colon 0 == 58)
        then invalid invalid_format
        else let v_start = skip_ws json (colon + 1) in
          and_then (field k v_start s) λ s'. and_then (skip_value json v_start) λ i'. ok (s', i')

  unfoldable pub members : ℕ → ℕ → S → Result (S × ℕ)
  unfolding skip_ws member
  members zero i s = out_of_fuel
  members (suc fuel) i s =
      let j = skip_ws json i in
      elim (get_or json j 0 == 125) [
        | true ↦ ok (s, j + 1)
        | false ↦ and_then (member j s) λ (s', i'). members fuel (after_comma json i') s'
      ]

  -- The object of a section.
  unfoldable pub object : ℕ → S → Result (S × ℕ)
  unfolding members
  object i s =
      if get_or json i 0 == 123
      then members (suc (length json)) (i + 1) s
      else invalid invalid_format

module _ {S : Type 0} (json : Bytes) (value : Bytes → ℕ → S → Result (S × ℕ)) where
  -- A member of the transaction's outer object; `value` reads its value and moves behind it.
  unfoldable pub outer_member : ℕ → S → Result (S × ℕ)
  unfolding skip_ws skip_string
  outer_member i s =
      if not (get_or json i 0 == 34)
      then invalid invalid_format
      else and_then (skip_string json i) λ end.
        let key = slice json (i + 1) (end - 1) in
        let colon = skip_ws json end in
        if not (get_or json colon 0 == 58)
        then invalid invalid_format
        else value key (skip_ws json (colon + 1)) s

  -- Up to the closing brace, behind which nothing is read.
  unfoldable pub outer_members : ℕ → ℕ → S → Result S
  unfolding skip_ws outer_member
  outer_members zero i s = out_of_fuel
  outer_members (suc fuel) i s =
      let j = skip_ws json i in
      elim (get_or json j 0 == 125) [
        | true ↦ ok s
        | false ↦
            and_then (outer_member j s) λ (s', i'). outer_members fuel (after_comma json i') s'
      ]
