-- ===== src/Vector/Query.antt =====
-- src/vector/mod.rs: the three parsers of a transaction, one behind the other.
pub mod Ensured
use rinha_rust_tree.Prelude.{ℕ}
use rinha_rust_tree.Http.Bytes.{Bytes}
use rinha_rust_tree.Index.Table.{QueryVector}
use rinha_rust_tree.Vector.Json.{Result, ok, invalid, out_of_fuel}
use rinha_rust_tree.Vector.Floats.{Floats}
use rinha_rust_tree.Vector.Compact.{try_parse_compact_ordered}
use rinha_rust_tree.Vector.SinglePass.{try_parse_single_pass}
use rinha_rust_tree.Vector.Payload.{Serde}
use rinha_rust_tree.Vector.Serde.{try_parse_serde}

-- `if first.is_ok() { return Ok(()) }`
abbrev pub or_next : Result QueryVector → Result QueryVector → Result QueryVector
or_next (ok out) second = ok out
or_next (invalid e) second = second
or_next out_of_fuel second = out_of_fuel

abbrev pub vector : Result (QueryVector × ℕ) → Result QueryVector
vector (ok (out, _)) = ok out
vector (invalid e) = invalid e
vector out_of_fuel = out_of_fuel

module _ (fl : Floats) (sd : Serde fl.F64) (scale : ℕ) where
  unfoldable pub parse_query : Bytes → Result QueryVector
  unfolding try_parse_compact_ordered try_parse_single_pass try_parse_serde
  parse_query payload =
      or_next (vector (try_parse_compact_ordered payload fl scale 0))
        (or_next (try_parse_single_pass fl scale payload) (try_parse_serde fl sd scale payload))
