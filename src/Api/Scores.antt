-- ===== src/Api/Scores.antt =====
-- src/api/handler.rs with src/index/mod.rs: the answer to a scored transaction.
use rinha_rust_tree.Prelude.{ℕ, ◌%◌, ◌≡◌, ap, Bool, true, false, List, ◌++◌, Option, none, some}
use rinha_rust_tree.Http.Bytes.{Bytes}
use rinha_rust_tree.Index.Best.{Slot, no_best, label_sum}
use rinha_rust_tree.Index.Best.Nearest.{IsNearest}
use rinha_rust_tree.Index.Predict.{Entry, predict_fraud_count}
use rinha_rust_tree.Index.Predict.Keys.{concat}
use rinha_rust_tree.Index.Predict.Valid.{IsIndex, idx_of}
use rinha_rust_tree.Index.Predict.Nearest.{predict_fraud_count-IsNearest}
use rinha_rust_tree.Index.Predict.Sort.{IsSortByBound}
use rinha_rust_tree.Index.Scan.Leaf.{Place, slots_at}
use rinha_rust_tree.Index.Table.{QueryVector, SpecialistIndex}
use rinha_rust_tree.Api.{can_serve_fraud, fraud_response, score}

abbrev pub or_zero : Option ℕ → ℕ
or_zero none = 0
or_zero (some count) = count

-- the lookup as the handler calls it; the 0 is never used when the fuel is enough
abbrev pub lookup : (List Entry → List Entry) → ℕ → SpecialistIndex → QueryVector → ℕ
lookup sort_unstable fuel ix query = or_zero (predict_fraud_count sort_unstable fuel ix query)

-- When the server may answer and the body is a transaction, the answer to a POST is the one for the
-- number of frauds, modulo 256, among K vectors that are nearest to it, by distance, in the whole
-- index and the K empty slots. For this transaction the bound of every box, of a partition or of a
-- node below its root, is at most the distance of each vector below, as 32 bits hold it; the index
-- has its trees in the file, within the stack and the fuel, and neither deferral nor early exit; and
-- the standard library's sort sorts.
pub score-IsNearest :
    (parse_query : Bytes → Option QueryVector) (is_ready accept_warmup : Bool) (body : Bytes)
    (ix : SpecialistIndex) (query : QueryVector) (fuel : ℕ) (places : ℕ → List Place)
    (sort_unstable : List Entry → List Entry)
    → IsIndex ix query fuel places
    → IsSortByBound sort_unstable
    → can_serve_fraud parse_query (lookup sort_unstable fuel ix) is_ready accept_warmup ≡ true
    → parse_query body ≡ some query
    → (best : List Slot) × (score parse_query
          (lookup sort_unstable fuel ix)
          is_ready
          accept_warmup
          body
        ≡ fraud_response (label_sum best % 256))
      × IsNearest false best
          (slots_at ix query (concat (λ key. places (idx_of ix key)) ix.active_keys) ++ no_best)
unfolding score
score-IsNearest parse_query is_ready accept_warmup body ix query fuel places sort_unstable h sorts
      serves parsed =
    let (best, found, near) =
      predict_fraud_count-IsNearest ix query fuel places sort_unstable h sorts in
    (best, rw (serves, parsed, score) (ap (λ o. fraud_response (or_zero o)) found), near)
