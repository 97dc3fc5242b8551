-- ===== src/Http/Responses.antt =====
-- src/http/responses.rs: the fixed responses, by name, and their bytes.
use rinha_rust_tree.Prelude.{List, [], ◌∷◌}
use rinha_rust_tree.Http.Bytes.{Bytes, codes}

pub data Response : Type 0 where
  ready not_ready bad_request not_found : Response
  fraud_0 fraud_1 fraud_2 fraud_3 fraud_4 fraud_5 : Response

-- `FRAUD_RESPONSES`
abbrev pub fraud_responses : List Response
fraud_responses = fraud_0 ∷ fraud_1 ∷ fraud_2 ∷ fraud_3 ∷ fraud_4 ∷ fraud_5 ∷ []

unfoldable pub response_bytes : Response → Bytes
response_bytes ready = codes "HTTP/1.1 200 OK\r\nContent-Length: 2\r\n\r\nok"
response_bytes not_ready = codes "HTTP/1.1 503 Service Unavailable\r\nContent-Length: 0\r\n\r\n"
response_bytes bad_request =
    codes "HTTP/1.1 400 Bad Request\r\nContent-Length: 0\r\nConnection: close\r\n\r\n"
response_bytes not_found =
    codes "HTTP/1.1 404 Not Found\r\nContent-Length: 0\r\nConnection: close\r\n\r\n"
response_bytes fraud_0 =
    codes "HTTP/1.1 200 OK\r\nContent-Length: 35\r\n\r\n{\"approved\":true,\"fraud_score\":0.0}"
response_bytes fraud_1 =
    codes "HTTP/1.1 200 OK\r\nContent-Length: 35\r\n\r\n{\"approved\":true,\"fraud_score\":0.2}"
response_bytes fraud_2 =
    codes "HTTP/1.1 200 OK\r\nContent-Length: 35\r\n\r\n{\"approved\":true,\"fraud_score\":0.4}"
response_bytes fraud_3 =
    codes "HTTP/1.1 200 OK\r\nContent-Length: 36\r\n\r\n{\"approved\":false,\"fraud_score\":0.6}"
response_bytes fraud_4 =
    codes "HTTP/1.1 200 OK\r\nContent-Length: 36\r\n\r\n{\"approved\":false,\"fraud_score\":0.8}"
response_bytes fraud_5 =
    codes "HTTP/1.1 200 OK\r\nContent-Length: 36\r\n\r\n{\"approved\":false,\"fraud_score\":1.0}"
