-- ===== src/Api.antt =====
-- src/api/handler.rs: the answer to a request. Reading the query out of the body, `parse_query` of
-- src/vector, and the prediction of the index are the handler's arguments here, as are the two
-- flags that other threads set.
pub mod Answers
pub mod Scores
use rinha_rust_tree.Prelude.{
  ℕ, Bool, true, false, ◌||◌, List, Option, none, some, ltb, if◌then◌else◌, length, get_or,
}
use rinha_rust_tree.Http.Bytes.{Bytes, codes, same_bytes}
use rinha_rust_tree.Http.Responses.{
  Response, ready, not_ready, bad_request, not_found, fraud_5, fraud_responses,
}
use rinha_rust_tree.Http.Parser.{Request, Method, get, post}
use rinha_rust_tree.Index.Table.{QueryVector}

unfoldable pub fraud_response : ℕ → Response
fraud_response count =
    if ltb count (length fraud_responses) then get_or fraud_responses count fraud_5 else fraud_5

module _ (parse_query : Bytes → Option QueryVector) (predict_fraud_count : QueryVector → ℕ)
    (is_ready : Bool) (accept_warmup : Bool) where
  unfoldable pub can_serve_fraud : Bool
  can_serve_fraud = is_ready || accept_warmup

  unfoldable pub score : Bytes → Response
  unfolding fraud_response can_serve_fraud
  score body =
      if can_serve_fraud
      then elim (parse_query body) [
        | none ↦ bad_request
        | some query ↦ fraud_response (predict_fraud_count query)
      ]
      else not_ready

  -- the match of `handle_request` on the method and the path
  unfoldable pub handle : Method → Bytes → Bytes → Response
  unfolding same_bytes score
  handle get path body =
      if same_bytes path (codes "/ready")
      then (if is_ready then ready else not_ready)
      else not_found
  handle post path body = if same_bytes path (codes "/fraud-score") then score body else not_found

  unfoldable pub handle_request : Request → Response
  unfolding handle
  handle_request req = handle req.method req.path req.body
