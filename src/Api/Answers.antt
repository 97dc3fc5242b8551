-- ===== src/Api/Answers.antt =====
-- src/api/handler.rs, src/http/responses.rs: what the answers say.
use rinha_rust_tree.Prelude.{
  ℕ, zero, suc, ◌+◌, ◌*◌, ◌/◌, ◌%◌, ◌≤◌, ◌≡◌, ◌≢◌, refl, Bool, true, false, ◌∷◌, ◌++◌, Option, ltb,
  if◌then◌else◌, length, take, drop, arith, Bool-cases, Option-cases, inl, inr,
}
use rinha_rust_tree.Http.Bytes.{Bytes, codes, starts_with, IsMemmem}
use rinha_rust_tree.Http.Responses.{
  Response, ready, not_ready, bad_request, not_found, fraud_0, fraud_1, fraud_2, fraud_3, fraud_4,
  fraud_5, response_bytes,
}
use rinha_rust_tree.Http.Parser.{
  Request, Method, get, post, content_length_scan, parse_content_length_value, returned, complete,
  parse_request_result,
}
use rinha_rust_tree.Http.Parser.Routes.{IsServed, parse_request_result-complete}
use rinha_rust_tree.Index.Table.{QueryVector}
use rinha_rust_tree.Api.{fraud_response, can_serve_fraud, score, handle, handle_request}

-- A response is headers, an empty line, and as many bytes as its headers declare.
abbrev pub IsFramed : Bytes → Type 0
IsFramed bytes =
    (header_end : ℕ) × (starts_with (drop header_end bytes) (codes "\r\n\r\n") ≡ true)
    × (header_end + 4 + content_length_scan (take (header_end + 4) bytes) ≡ length bytes)

-- Every response that the server sends has the length that it declares.
pub response_bytes-IsFramed : (response : Response) → IsFramed (response_bytes response)
unfolding response_bytes starts_with content_length_scan parse_content_length_value
response_bytes-IsFramed ready = (34, refl, refl)
response_bytes-IsFramed not_ready = (51, refl, refl)
response_bytes-IsFramed bad_request = (62, refl, refl)
response_bytes-IsFramed not_found = (60, refl, refl)
response_bytes-IsFramed fraud_0 = (35, refl, refl)
response_bytes-IsFramed fraud_1 = (35, refl, refl)
response_bytes-IsFramed fraud_2 = (35, refl, refl)
response_bytes-IsFramed fraud_3 = (35, refl, refl)
response_bytes-IsFramed fraud_4 = (35, refl, refl)
response_bytes-IsFramed fraud_5 = (35, refl, refl)

-- The body that says that `count` of the five nearest are frauds.
abbrev pub score_body : ℕ → Bytes
score_body count =
    codes "{\"approved\":"
    ++ (if ltb count 3 then codes "true" else codes "false")
    ++ codes ",\"fraud_score\":"
    ++ (48 + 2 * count / 10) ∷ 46 ∷ (48 + 2 * count % 10) ∷ codes "}"

-- The response for `count` frauds among five ends with the score `count / 5`, and approves below
-- three of them.
pub fraud_response-score :
    (count : ℕ)
    → count ≤ 5
    → (headers : Bytes) × (response_bytes (fraud_response count) ≡ headers ++ score_body count)
unfolding fraud_response response_bytes
fraud_response-score zero h = (take 39 (response_bytes fraud_0), refl)
fraud_response-score (suc zero) h = (take 39 (response_bytes fraud_1), refl)
fraud_response-score (suc (suc zero)) h = (take 39 (response_bytes fraud_2), refl)
fraud_response-score (suc (suc (suc zero))) h = (take 39 (response_bytes fraud_3), refl)
fraud_response-score (suc (suc (suc (suc zero)))) h = (take 39 (response_bytes fraud_4), refl)
fraud_response-score (suc (suc (suc (suc (suc zero))))) h = (take 39 (response_bytes fraud_5), refl)
fraud_response-score (suc (suc (suc (suc (suc (suc n)))))) h = absurd (omega arith)

past : (n : ℕ) → ltb (suc (suc (suc (suc (suc (suc n)))))) 6 ≡ false
past n = ground arith

fraud_response-found : (count : ℕ) → fraud_response count ≢ not_found
unfolding fraud_response
fraud_response-found zero = λ e. cc
fraud_response-found (suc zero) = λ e. cc
fraud_response-found (suc (suc zero)) = λ e. cc
fraud_response-found (suc (suc (suc zero))) = λ e. cc
fraud_response-found (suc (suc (suc (suc zero)))) = λ e. cc
fraud_response-found (suc (suc (suc (suc (suc zero))))) = λ e. cc
fraud_response-found (suc (suc (suc (suc (suc (suc n)))))) = rw (past n, fraud_response) (λ e. cc)

module _ (parse_query : Bytes → Option QueryVector) (predict_fraud_count : QueryVector → ℕ)
    (is_ready : Bool) (accept_warmup : Bool) where
  score-found :
      (body : Bytes) → score parse_query predict_fraud_count is_ready accept_warmup body ≢ not_found
  unfolding score
  score-found body =
      elim (Bool-cases (can_serve_fraud parse_query predict_fraud_count is_ready accept_warmup)) [
        | inr closed ↦ rw (closed, score) (λ e. cc)
        | inl open_now ↦ elim (Option-cases (parse_query body)) [
          | inl bad ↦ rw (open_now, bad, score) (λ e. cc)
          | inr (query, good) ↦
              rw (open_now, good, score) (fraud_response-found (predict_fraud_count query))
        ]
      ]

  handle-found :
      (method : Method) (path body : Bytes)
      → IsServed method path body
      → handle parse_query predict_fraud_count is_ready accept_warmup method path body ≢ not_found
  unfolding handle
  handle-found get path body (inl (m, p)) = elim (Bool-cases is_ready) [
    | inl up ↦ rw (p, up, handle) (λ e. cc)
    | inr down ↦ rw (p, down, handle) (λ e. cc)
  ]
  handle-found get path body (inr (m, p, l)) = cc
  handle-found post path body (inl (m, p)) = cc
  handle-found post path body (inr (m, p, l)) = rw (p, handle) (score-found body)

  -- No request that the parser completes is answered by 404: it rejects those itself.
  pub handle_request-found :
      {memmem : Bytes → Bytes → Option ℕ} (m : IsMemmem memmem) (assume : Bool) (buf : Bytes)
      (req : Request) (consumed : ℕ)
      → parse_request_result memmem assume buf ≡ returned (complete req consumed)
      → handle_request parse_query predict_fraud_count is_ready accept_warmup req ≢ not_found
  unfolding handle_request
  handle_request-found m assume buf req consumed e =
      let (whole, inside, served) = parse_request_result-complete m assume buf req consumed e in
      handle-found req.method req.path req.body served
