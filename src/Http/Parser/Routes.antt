-- ===== src/Http/Parser/Routes.antt =====
-- src/http/parser.rs: what a complete request keeps to, and when the parser panics.
use native.Mathlib.Nat.{mod-le}
use rinha_rust_tree.Prelude.{
  ℕ, ◌+◌, ◌-◌, ◌^◌, ◌%◌, ◌≤◌, ◌<◌, ◌≡◌, ◌∙◌, sym, Bool, true, Option, none, some, arith, inl, inr,
  Option-cases, length, drop, length-take, length-drop, ◌⊎◌,
}
use rinha_rust_tree.Http.Bytes.{Bytes, codes, slice, same_bytes, IsMemmem}
use rinha_rust_tree.Http.Parser.{
  Line, Method, get, post, Request, complete, returned, panicked, parse_first_line, find_header_end,
  parse_rest, parse_request_result, early_rejection, read_body, parse_body, find_content_length,
  max_body_len,
}
use rinha_rust_tree.Http.Parser.Prefix.{find_header_end-Ends}

-- The routes that the server answers, with the bound on a body.
abbrev pub IsServed : Method → Bytes → Bytes → Type 0
IsServed method path body =
    ((method ≡ get) × (same_bytes path (codes "/ready") ≡ true))
    ⊎ ((method ≡ post)
        × (same_bytes path (codes "/fraud-score") ≡ true)
        × (length body ≤ max_body_len))

early_rejection-none :
    (method : Method) (path : Bytes) (content_length : ℕ)
    → early_rejection method path content_length ≡ none
    → ((method ≡ get) × (same_bytes path (codes "/ready") ≡ true))
      ⊎ ((method ≡ post)
          × (same_bytes path (codes "/fraud-score") ≡ true)
          × (content_length ≤ max_body_len))
unfolding early_rejection
early_rejection-none get path content_length h = ground arith
early_rejection-none post path content_length h = ground arith

read_body-complete :
    (buf : Bytes) (header_end body_end : ℕ) (request : Bytes → Request) (req : Request)
    (consumed : ℕ)
    → read_body buf header_end body_end request ≡ returned (complete req consumed)
    → (consumed ≡ body_end)
      × (header_end ≤ body_end)
      × (body_end ≤ length buf)
      × (request (slice buf header_end body_end) ≡ req)
unfolding read_body
read_body-complete buf header_end body_end request req consumed h = ground arith

read_body-panicked :
    (buf : Bytes) (header_end body_end : ℕ) (request : Bytes → Request)
    → read_body buf header_end body_end request ≡ panicked
    → body_end < header_end
unfolding read_body
read_body-panicked buf header_end body_end request h = ground arith

body_len :
    (buf : Bytes) (header_end content_length : ℕ)
    → length (slice buf header_end ((header_end + content_length) % 2 ^ 64)) ≤ content_length
body_len buf header_end content_length =
    let body_end = (header_end + content_length) % 2 ^ 64 in
    omega (
      arith,
      length-take (body_end - header_end) (drop header_end buf),
      mod-le (header_end + content_length) (2 ^ 64),
    )

slice_len : (buf : Bytes) (a b : ℕ) → a ≤ b → b ≤ length buf → a + length (slice buf a b) ≡ b
slice_len buf a b h l = omega (arith, length-take (b - a) (drop a buf), length-drop a buf)

module _ (buf : Bytes) (header_end : ℕ) (method : Method) (path : Bytes) (content_length : ℕ)
    (keep_alive : Bool) where
  parse_body-complete :
      (req : Request) (consumed : ℕ)
      → parse_body buf header_end method path content_length keep_alive
        ≡ returned (complete req consumed)
      → (header_end + length req.body ≡ consumed)
        × (consumed ≤ length buf)
        × IsServed req.method req.path req.body
  unfolding parse_body
  parse_body-complete req consumed h =
      elim (Option-cases (early_rejection method path content_length)) [
        | inr (response, e) ↦ cc (rw (e, parse_body) at h)
        | inl e ↦
            let (same, ordered, inside, is) =
              read_body-complete buf header_end _ _ req consumed (rw (e, parse_body) at h) in
            let whole = slice_len buf header_end _ ordered inside in
            let short = body_len buf header_end content_length in
            rw (sym is) (
              whole ∙ sym same,
              omega arith,
              elim (early_rejection-none method path content_length e) [
                | inl (m, p) ↦ inl (m, p)
                | inr (m, p, l) ↦ inr (m, p, omega arith)
              ],
            )
      ]

  parse_body-panicked :
      parse_body buf header_end method path content_length keep_alive ≡ panicked
      → header_end < 2 ^ 63
      → (method ≡ get) × (2 ^ 64 ≤ header_end + content_length)
  unfolding parse_body
  parse_body-panicked h small = elim (Option-cases (early_rejection method path content_length)) [
    | inr (response, e) ↦ cc (rw (e, parse_body) at h)
    | inl e ↦
        let before = read_body-panicked buf header_end _ _ (rw (e, parse_body) at h) in
        elim (early_rejection-none method path content_length e) [
          | inl (m, p) ↦ (m, omega arith)
          | inr (m, p, l) ↦ absurd (omega arith)
        ]
  ]

module _ {memmem : Bytes → Bytes → Option ℕ} (m : IsMemmem memmem) (assume : Bool) where
  -- A complete request is for one of the two routes, lies within the buffer, and is consumed with
  -- all of its body, which for a POST has at most 8192 bytes.
  pub parse_request_result-complete :
      (buf : Bytes) (req : Request) (consumed : ℕ)
      → parse_request_result memmem assume buf ≡ returned (complete req consumed)
      → (length req.body + 4 ≤ consumed)
        × (consumed ≤ length buf)
        × IsServed req.method req.path req.body
  unfolding parse_request_result parse_rest
  parse_request_result-complete buf req consumed h =
      elim (Option-cases (find_header_end memmem buf)) [
        | inl none_there ↦ cc (rw (none_there, parse_request_result) at h)
        | inr (header_end, e) ↦
            let (end, at_end, after, within) = find_header_end-Ends m buf header_end e in
            elim (Option-cases (parse_first_line buf)) [
              | inl bad ↦ cc (rw (e, bad, parse_request_result) at h)
              | inr (line, e') ↦
                  let (whole, inside, served) =
                    parse_body-complete buf header_end _ _ _ _ req consumed
                      (rw (e, e', parse_request_result, parse_rest) at h) in
                  (omega arith, inside, served)
            ]
      ]

  -- On a buffer below 2 ^ 63 bytes the parser panics only for a GET whose declared length makes
  -- the end of the body overflow 2 ^ 64: no POST does.
  pub parse_request_result-panicked :
      (buf : Bytes)
      → length buf < 2 ^ 63
      → parse_request_result memmem assume buf ≡ panicked
      → (header_end : ℕ) × (line : Line) × (find_header_end memmem buf ≡ some header_end)
        × (parse_first_line buf ≡ some line)
        × (line.method ≡ get)
        × (2 ^ 64 ≤ header_end + find_content_length memmem (slice buf line.headers_len header_end))
  unfolding parse_request_result parse_rest
  parse_request_result-panicked buf small h = elim (Option-cases (find_header_end memmem buf)) [
    | inl none_there ↦ cc (rw (none_there, parse_request_result) at h)
    | inr (header_end, e) ↦
        let (end, at_end, after, within) = find_header_end-Ends m buf header_end e in
        elim (Option-cases (parse_first_line buf)) [
          | inl bad ↦ cc (rw (e, bad, parse_request_result) at h)
          | inr (line, e') ↦
              let (is_get, overflow) =
                parse_body-panicked buf header_end _ _ _ _
                  (rw (e, e', parse_request_result, parse_rest) at h) (omega arith) in
              (header_end, line, e, e', is_get, overflow)
        ]
  ]
