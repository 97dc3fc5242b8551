-- ===== src/Vector/Payload.antt =====
-- src/vector/serde_fallback.rs: the fields of a payload. The crate serde_json is the interface `Serde`:
-- a value is what it hands to a visitor, with the conversions that `next_value` makes; `none` is an
-- error of any of them.
use rinha_rust_tree.Prelude.{
  ℕ, ◌+◌, Bool, ◌&&◌, ◌||◌, List, [], ◌∷◌, map, Option, none, some, leb, ◌==◌, if◌then◌else◌,
}
use rinha_rust_tree.Prelude.Int.{ℤ}
use rinha_rust_tree.Http.Bytes.{Bytes, codes, same_bytes}
use rinha_rust_tree.Http.Parser.{◌>>=◌}
use rinha_rust_tree.Vector.Floats.{Floats}

pub record Serde (F64 : Type 0) : Type 1 where
  pub Value : Type 0
  -- `serde_json::from_slice`
  pub from_slice : Bytes → Option Value
  -- `deserialize_map`: the keys and the values in the text's order
  pub map_of : Value → Option (List (Bytes × Value))
  -- `next_value` at the types of the fields
  pub f64_of : Value → Option F64
  pub i32_of : Value → Option ℤ
  pub str_of : Value → Option Bytes
  pub bool_of : Value → Option Bool
  pub strs_of : Value → Option (List Bytes)
  pub is_null : Value → Bool

-- `filter(|&b| b != b'_' && b != b'-')`
unfoldable pub without_marks : Bytes → Bytes
without_marks [] = []
without_marks (b ∷ s) = let rest = without_marks s in if b == 95 || b == 45 then rest else b ∷ rest

abbrev lower_case : ℕ → ℕ
lower_case b = if leb 65 b && leb b 90 then b + 32 else b

-- `eq_ignore_ascii_case`, byte by byte
unfoldable pub field_matches : Bytes → Bytes → Bool
unfolding without_marks same_bytes
field_matches actual expected =
    same_bytes (map lower_case (without_marks actual)) (map lower_case (without_marks expected))

-- `while let Some(key) = map.next_key()?`
unfoldable pub visit_map :
    {V S : Type 0} → (Bytes → V → S → Option S) → List (Bytes × V) → S → Option S
visit_map field [] s = some s
visit_map field ((key, v) ∷ rest) s = elim (field key v s) [
  | none ↦ none
  | some s' ↦ visit_map field rest s'
]

module _ (fl : Floats) (sd : Serde fl.F64) where
  pub record Transaction : Type 0 where
    pub amount : fl.F64
    pub installments : ℤ
    pub requested_at : Bytes

  pub record Customer : Type 0 where
    pub avg_amount : fl.F64
    pub tx_count_24h : ℤ
    pub known_merchants : List Bytes

  pub record Merchant : Type 0 where
    pub id : Bytes
    pub mcc : Bytes
    pub avg_amount : fl.F64

  pub record Terminal : Type 0 where
    pub is_online : Bool
    pub card_present : Bool
    pub km_from_home : fl.F64

  pub record LastTransaction : Type 0 where
    pub timestamp : Bytes
    pub km_from_current : fl.F64

  pub record Payload : Type 0 where
    pub transaction : Transaction
    pub customer : Customer
    pub merchant : Merchant
    pub terminal : Terminal
    pub last_transaction : Option LastTransaction

  -- the local variables of the visitor
  abbrev TransactionFields : Type 0
  TransactionFields = Option fl.F64 × Option ℤ × Option Bytes

  unfoldable pub visit_transaction : Bytes → sd.Value → TransactionFields → Option TransactionFields
  unfolding field_matches
  visit_transaction key v (amount, installments, requested_at) =
      if field_matches key (codes "amount")
      then (sd.f64_of v >>= λ x. some (some x, installments, requested_at))
      else if field_matches key (codes "installments")
      then (sd.i32_of v >>= λ x. some (amount, some x, requested_at))
      else if field_matches key (codes "requested_at")
      then (sd.str_of v >>= λ x. some (amount, installments, some x))
      else some (amount, installments, requested_at)

  unfoldable pub transaction_of : sd.Value → Option Transaction
  unfolding visit_map visit_transaction
  transaction_of v = do
    members ← sd.map_of v
    (amount, installments, requested_at) ← visit_map visit_transaction members (none, none, none)
    amount ← amount
    installments ← installments
    requested_at ← requested_at
    some (record { amount = amount; installments = installments; requested_at = requested_at })

  -- the local variables of the visitor
  abbrev CustomerFields : Type 0
  CustomerFields = Option fl.F64 × Option ℤ × Option (List Bytes)

  unfoldable pub visit_customer : Bytes → sd.Value → CustomerFields → Option CustomerFields
  unfolding field_matches
  visit_customer key v (avg_amount, tx_count_24h, known_merchants) =
      if field_matches key (codes "avg_amount")
      then (sd.f64_of v >>= λ x. some (some x, tx_count_24h, known_merchants))
      else if field_matches key (codes "tx_count_24h")
      then (sd.i32_of v >>= λ x. some (avg_amount, some x, known_merchants))
      else if field_matches key (codes "known_merchants")
      then (sd.strs_of v >>= λ x. some (avg_amount, tx_count_24h, some x))
      else some (avg_amount, tx_count_24h, known_merchants)

  unfoldable pub customer_of : sd.Value → Option Customer
  unfolding visit_map visit_customer
  customer_of v = do
    members ← sd.map_of v
    (avg_amount, tx_count_24h, known_merchants) ←
        visit_map visit_customer members (none, none, none)
    avg_amount ← avg_amount
    tx_count_24h ← tx_count_24h
    known_merchants ← known_merchants
    some (record {
      avg_amount = avg_amount;
      tx_count_24h = tx_count_24h;
      known_merchants = known_merchants;
    })

  -- the local variables of the visitor
  abbrev MerchantFields : Type 0
  MerchantFields = Option Bytes × Option Bytes × Option fl.F64

  unfoldable pub visit_merchant : Bytes → sd.Value → MerchantFields → Option MerchantFields
  unfolding field_matches
  visit_merchant key v (id, mcc, avg_amount) =
      if field_matches key (codes "id")
      then (sd.str_of v >>= λ x. some (some x, mcc, avg_amount))
      else if field_matches key (codes "mcc")
      then (sd.str_of v >>= λ x. some (id, some x, avg_amount))
      else if field_matches key (codes "avg_amount")
      then (sd.f64_of v >>= λ x. some (id, mcc, some x))
      else some (id, mcc, avg_amount)

  unfoldable pub merchant_of : sd.Value → Option Merchant
  unfolding visit_map visit_merchant
  merchant_of v = do
    members ← sd.map_of v
    (id, mcc, avg_amount) ← visit_map visit_merchant members (none, none, none)
    id ← id
    mcc ← mcc
    avg_amount ← avg_amount
    some (record { id = id; mcc = mcc; avg_amount = avg_amount })

  -- the local variables of the visitor
  abbrev TerminalFields : Type 0
  TerminalFields = Option Bool × Option Bool × Option fl.F64

  unfoldable pub visit_terminal : Bytes → sd.Value → TerminalFields → Option TerminalFields
  unfolding field_matches
  visit_terminal key v (is_online, card_present, km_from_home) =
      if field_matches key (codes "is_online")
      then (sd.bool_of v >>= λ x. some (some x, card_present, km_from_home))
      else if field_matches key (codes "card_present")
      then (sd.bool_of v >>= λ x. some (is_online, some x, km_from_home))
      else if field_matches key (codes "km_from_home")
      then (sd.f64_of v >>= λ x. some (is_online, card_present, some x))
      else some (is_online, card_present, km_from_home)

  unfoldable pub terminal_of : sd.Value → Option Terminal
  unfolding visit_map visit_terminal
  terminal_of v = do
    members ← sd.map_of v
    (is_online, card_present, km_from_home) ← visit_map visit_terminal members (none, none, none)
    is_online ← is_online
    card_present ← card_present
    km_from_home ← km_from_home
    some
        (record { is_online = is_online; card_present = card_present; km_from_home = km_from_home })

  -- the local variables of the visitor
  abbrev LastTransactionFields : Type 0
  LastTransactionFields = Option Bytes × Option fl.F64

  unfoldable pub visit_last_transaction :
      Bytes → sd.Value → LastTransactionFields → Option LastTransactionFields
  unfolding field_matches
  visit_last_transaction key v (timestamp, km_from_current) =
      if field_matches key (codes "timestamp")
      then (sd.str_of v >>= λ x. some (some x, km_from_current))
      else if field_matches key (codes "km_from_current")
      then (sd.f64_of v >>= λ x. some (timestamp, some x))
      else some (timestamp, km_from_current)

  unfoldable pub last_transaction_of : sd.Value → Option LastTransaction
  unfolding visit_map visit_last_transaction
  last_transaction_of v = do
    members ← sd.map_of v
    (timestamp, km_from_current) ← visit_map visit_last_transaction members (none, none)
    timestamp ← timestamp
    km_from_current ← km_from_current
    some (record { timestamp = timestamp; km_from_current = km_from_current })

  abbrev PayloadFields : Type 0
  PayloadFields =
      Option Transaction
      × Option Customer
      × Option Merchant
      × Option Terminal
      × Option LastTransaction

  -- an `Option` field: `null` is `None`
  abbrev optional_last : sd.Value → Option (Option LastTransaction)
  optional_last v =
      if sd.is_null v then some none else (last_transaction_of v >>= λ l. some (some l))

  unfoldable pub visit_payload : Bytes → sd.Value → PayloadFields → Option PayloadFields
  unfolding field_matches transaction_of customer_of merchant_of terminal_of last_transaction_of
  visit_payload key v (t, c, m, r, l) =
      if field_matches key (codes "transaction")
      then (transaction_of v >>= λ x. some (some x, c, m, r, l))
      else if field_matches key (codes "customer")
      then (customer_of v >>= λ x. some (t, some x, m, r, l))
      else if field_matches key (codes "merchant")
      then (merchant_of v >>= λ x. some (t, c, some x, r, l))
      else if field_matches key (codes "terminal")
      then (terminal_of v >>= λ x. some (t, c, m, some x, l))
      else if field_matches key (codes "last_transaction")
      then (optional_last v >>= λ x. some (t, c, m, r, x))
      else some (t, c, m, r, l)

  unfoldable pub payload_of : sd.Value → Option Payload
  unfolding visit_map visit_payload
  payload_of v = do
    members ← sd.map_of v
    (t, c, m, r, last) ← visit_map visit_payload members (none, none, none, none, none)
    transaction ← t
    customer ← c
    merchant ← m
    terminal ← r
    some (record {
      transaction = transaction;
      customer = customer;
      merchant = merchant;
      terminal = terminal;
      last_transaction = last;
    })
