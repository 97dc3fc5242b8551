-- ===== src/Tests/Http.antt =====
-- src/http, src/api: requests and answers, with a search that tries every place.
use rinha_rust_tree.Prelude.{
  ℕ, zero, suc, ◌+◌, ◌≤◌, ◌≡◌, ◌≢◌, refl, true, false, [], ◌∷◌, ◌++◌, Option, none, some, arith,
  if◌then◌else◌, length, drop, ◌^◌,
}
use rinha_rust_tree.Http.Bytes.{Bytes, codes, starts_with, IsMemmem, slice, position}
use rinha_rust_tree.Http.Responses.{bad_request, not_found, response_bytes}
use rinha_rust_tree.Http.Parser.{
  returned, panicked, Request, complete, need_more, get, post, parse_request_result,
  find_header_end, parse_first_line, find_content_length, Line, method_of, parse_path, parse_rest,
  parse_body, early_rejection, read_body, contains_connection_close,
}
use rinha_rust_tree.Http.Parser.Prefix.{parse_request_result-append}
use rinha_rust_tree.Http.Parser.Routes.{
  IsServed, parse_request_result-complete, parse_request_result-panicked,
}
use rinha_rust_tree.Index.Table.{QueryVector}
use rinha_rust_tree.Api.{handle_request, fraud_response}
use rinha_rust_tree.Api.Answers.{
  IsFramed, score_body, response_bytes-IsFramed, fraud_response-score, handle_request-found,
}

pub search_bytes : Bytes → Bytes → Option ℕ
search_bytes [] needle = if starts_with [] needle then some 0 else none
search_bytes (b ∷ bytes) needle =
    let rest = search_bytes bytes needle in
    if starts_with (b ∷ bytes) needle
    then some 0
    else elim rest [ none ↦ none | some i ↦ some (suc i) ]

search_bytes-found :
    (bytes needle : Bytes) (i : ℕ)
    → search_bytes bytes needle ≡ some i
    → starts_with (drop i bytes) needle ≡ true
unfolding search_bytes
search_bytes-found [] needle zero e = ground arith
search_bytes-found [] needle (suc i) e = ground arith
search_bytes-found (b ∷ bytes) needle zero e = ground arith
search_bytes-found (b ∷ bytes) needle (suc i) e = ground (arith, search_bytes-found bytes needle i)

search_bytes-first :
    (bytes needle : Bytes) (i j : ℕ)
    → search_bytes bytes needle ≡ some i
    → starts_with (drop j bytes) needle ≡ true
    → i ≤ j
unfolding search_bytes
search_bytes-first bytes needle zero j e h = omega arith
search_bytes-first [] needle (suc i) j e h = ground arith
search_bytes-first (b ∷ bytes) needle (suc i) zero e h = ground arith
search_bytes-first (b ∷ bytes) needle (suc i) (suc j) e h =
    ground (arith, search_bytes-first bytes needle i j)

search_bytes-missing :
    (bytes needle : Bytes) (j : ℕ)
    → search_bytes bytes needle ≡ none
    → starts_with (drop j bytes) needle ≡ false
unfolding search_bytes
search_bytes-missing [] needle zero e = ground arith
search_bytes-missing [] needle (suc j) e = ground arith
search_bytes-missing (b ∷ bytes) needle zero e = ground arith
search_bytes-missing (b ∷ bytes) needle (suc j) e =
    ground (arith, search_bytes-missing bytes needle j)

pub search_bytes-IsMemmem : IsMemmem search_bytes
search_bytes-IsMemmem = record {
  found = search_bytes-found;
  first = search_bytes-first;
  missing = search_bytes-missing;
}

abbrev pub small_post : Bytes
small_post = codes "POST /fraud-score HTTP/1.1\r\nContent-Length: 2\r\n\r\n{}"

abbrev pub small_request : Request
small_request = record {
  method = post;
  path = codes "/fraud-score";
  body = codes "{}";
  keep_alive = true;
}

pub small_parsed :
    parse_request_result search_bytes false small_post ≡ returned (complete small_request 51)
unfolding parse_request_result find_header_end search_bytes starts_with parse_first_line position
    method_of parse_path parse_rest parse_body early_rejection find_content_length read_body
    contains_connection_close
small_parsed = refl

-- The declared length is 2 ^ 64 - 1, and the end of the body wraps to just before its start.
abbrev overflowing_get : Bytes
overflowing_get = codes "GET /ready HTTP/1.1\r\nContent-Length: 18446744073709551615\r\n\r\n"

overflow_panics : parse_request_result search_bytes false overflowing_get ≡ panicked
unfolding parse_request_result find_header_end search_bytes starts_with parse_first_line position
    method_of parse_path parse_rest parse_body early_rejection find_content_length read_body
    contains_connection_close
overflow_panics = refl

small_complete : parse_request_result search_bytes false small_post ≢ returned need_more
small_complete = rw small_parsed (λ e. cc)

parse_request_result-append_example :
    parse_request_result search_bytes false (small_post ++ codes "GET /re")
    ≡ parse_request_result search_bytes false small_post
parse_request_result-append_example =
    parse_request_result-append search_bytes-IsMemmem false small_post (codes "GET /re")
      small_complete

parse_request_result-complete_example :
    (length small_request.body + 4 ≤ 51)
    × (51 ≤ length small_post)
    × IsServed small_request.method small_request.path small_request.body
parse_request_result-complete_example =
    parse_request_result-complete search_bytes-IsMemmem false small_post small_request 51
      small_parsed

parse_request_result-panicked_example :
    (header_end : ℕ) × (line : Line) × (find_header_end search_bytes overflowing_get
      ≡ some header_end)
    × (parse_first_line overflowing_get ≡ some line)
    × (line.method ≡ get)
    × (2 ^ 64
        ≤ header_end
          + find_content_length search_bytes (slice overflowing_get line.headers_len header_end))
parse_request_result-panicked_example =
    parse_request_result-panicked search_bytes-IsMemmem false overflowing_get (omega arith)
      overflow_panics

response_bytes-IsFramed_example : IsFramed (response_bytes bad_request)
response_bytes-IsFramed_example = response_bytes-IsFramed bad_request

fraud_response-score_example :
    (headers : Bytes) × (response_bytes (fraud_response 3) ≡ headers ++ score_body 3)
fraud_response-score_example = fraud_response-score 3 (omega arith)

abbrev some_query : Bytes → Option QueryVector
some_query body = some []

abbrev three_frauds : QueryVector → ℕ
three_frauds query = 3

handle_request-found_example :
    handle_request some_query three_frauds true false small_request ≢ not_found
handle_request-found_example =
    handle_request-found some_query three_frauds true false search_bytes-IsMemmem false small_post
      small_request 51 small_parsed
