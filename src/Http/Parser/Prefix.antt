-- ===== src/Http/Parser/Prefix.antt =====
-- src/http/parser.rs: bytes behind a request do not change what the parser says of it.
use rinha_rust_tree.Prelude.{
  ℕ, zero, suc, ◌+◌, ◌≤◌, ◌≡◌, refl, ap, ◌∙◌, sym, Bool, true, [], ◌∷◌, ◌++◌, Option, some, arith,
  inl, inr, ltb, Bool-cases, Option-cases, get_or, length, drop, length-append, ◌≢◌, ltb-false,
}
use rinha_rust_tree.Http.Bytes.{
  Bytes, codes, position, starts_with, position-first, slice-append, take-append_le, IsMemmem,
  memmem-append, memmem-le,
}
use rinha_rust_tree.Http.Parser.{
  Line, Method, Request, need_more, returned, parse_first_line, is_cr, find_header_end, parse_rest,
  parse_request_result, early_rejection, read_body, parse_body,
}
use rinha_rust_tree.Http.Parser.Lines.{
  IsWithin, parse_first_line-append, parse_first_line-IsWithin, position-missing,
}

starts_with-head :
    (bytes needle : Bytes) (n : ℕ) → starts_with bytes (n ∷ needle) ≡ true → get_or bytes 0 0 ≡ n
unfolding starts_with
starts_with-head [] needle n h = cc
starts_with-head (b ∷ bytes) needle n h = ground arith

get_or-drop : (i : ℕ) (bytes : Bytes) → get_or (drop i bytes) 0 0 ≡ get_or bytes i 0
get_or-drop zero bytes = refl
get_or-drop (suc i) [] = refl
get_or-drop (suc i) (b ∷ bytes) = get_or-drop i bytes

-- The two places that the parser finds: the first carriage return, and the end of the headers.
abbrev Ends : Bytes → ℕ → Type 0
Ends buf header_end =
    (end : ℕ) × (position is_cr buf ≡ some end) × (end + 4 ≤ header_end) × (header_end ≤ length buf)

read_body-append :
    (buf more : Bytes) (header_end body_end : ℕ) (request : Bytes → Request)
    → read_body buf header_end body_end request ≢ returned need_more
    → read_body (buf ++ more) header_end body_end request
      ≡ read_body buf header_end body_end request
unfolding read_body
read_body-append buf more header_end body_end request h =
    elim (Bool-cases (ltb (length buf) body_end)) [
      | inl short ↦ ground arith
      | inr l ↦ elim (Bool-cases (ltb body_end header_end)) [
        | inl back ↦ ground (arith, length-append buf more)
        | inr l' ↦
            rw
              (slice-append buf more header_end body_end (ltb-false body_end header_end l')
                (ltb-false (length buf) body_end l))
              (ground (arith, length-append buf more))
      ]
    ]

parse_body-append :
    (buf more : Bytes) (header_end : ℕ) (method : Method) (path : Bytes) (content_length : ℕ)
    (keep_alive : Bool)
    → parse_body buf header_end method path content_length keep_alive ≢ returned need_more
    → parse_body (buf ++ more) header_end method path content_length keep_alive
      ≡ parse_body buf header_end method path content_length keep_alive
unfolding parse_body
parse_body-append buf more header_end method path content_length keep_alive h =
    elim (Option-cases (early_rejection method path content_length)) [
      | inr (response, e) ↦ rw (e, parse_body) refl
      | inl e ↦
          rw (e, parse_body) (read_body-append buf more header_end _ _ (rw (e, parse_body) at h))
    ]

module _ {memmem : Bytes → Bytes → Option ℕ} (m : IsMemmem memmem) where
  find_header_end-found :
      (buf : Bytes) (header_end : ℕ)
      → find_header_end memmem buf ≡ some header_end
      → (found : ℕ) × (memmem buf (codes "\r\n\r\n") ≡ some found)
        × (header_end ≡ found + 4)
        × (found + 4 ≤ length buf)
  unfolding find_header_end
  find_header_end-found buf header_end e = elim (Option-cases (memmem buf (codes "\r\n\r\n"))) [
    | inl none_there ↦ ground arith
    | inr (found, e') ↦
        let inside = memmem-le m buf (codes "\r\n\r\n") found e' (omega arith) in ground arith
  ]

  pub find_header_end-Ends :
      (buf : Bytes) (header_end : ℕ)
      → find_header_end memmem buf ≡ some header_end
      → Ends buf header_end
  find_header_end-Ends buf header_end e =
      let (found, at_found, same, inside) = find_header_end-found buf header_end e in
      let return : get_or buf found 0 ≡ 13 =
        sym (get_or-drop found buf)
        ∙ starts_with-head (drop found buf) (10 ∷ 13 ∷ 10 ∷ []) 13
            (m.found buf (codes "\r\n\r\n") found at_found) in
      let passes : is_cr (get_or buf found 0) ≡ true = ap is_cr return in
      elim (Option-cases (position is_cr buf)) [
        | inl none_there ↦ cc (position-missing is_cr buf found none_there (omega arith), passes)
        | inr (end, e') ↦
            let first = position-first is_cr buf end found e' (omega arith) passes in
            (end, e', omega arith, omega arith)
      ]

  find_header_end-append :
      (buf more : Bytes) (header_end : ℕ)
      → find_header_end memmem buf ≡ some header_end
      → find_header_end memmem (buf ++ more) ≡ some header_end
  unfolding find_header_end
  find_header_end-append buf more header_end e =
      let (found, at_found, same, inside) = find_header_end-found buf header_end e in
      let still = memmem-append m buf more (codes "\r\n\r\n") found at_found (omega arith) in
      rw still (ground (arith, length-append buf more))

  module _ (assume : Bool) where
    parse_rest-append :
        (buf more : Bytes) (header_end end : ℕ) (line : Line)
        → IsWithin end line
        → end + 4 ≤ header_end
        → header_end ≤ length buf
        → parse_rest memmem assume buf header_end line ≢ returned need_more
        → parse_rest memmem assume (buf ++ more) header_end line
          ≡ parse_rest memmem assume buf header_end line
    unfolding parse_rest
    parse_rest-append buf more header_end end line (ordered, inside, headers) after within h =
        rw
          (
            slice-append buf more line.headers_len header_end (omega arith) within,
            slice-append buf more line.path_start line.path_end ordered (omega arith),
            take-append_le header_end buf more within,
            parse_rest,
          )
          (parse_body-append buf more header_end line.method _ _ _ h)

    -- A request that is complete, rejected or panics does so whatever bytes follow it.
    pub parse_request_result-append :
        (buf more : Bytes)
        → parse_request_result memmem assume buf ≢ returned need_more
        → parse_request_result memmem assume (buf ++ more) ≡ parse_request_result memmem assume buf
    unfolding parse_request_result
    parse_request_result-append buf more h = elim (Option-cases (find_header_end memmem buf)) [
      | inl none_there ↦ absurd (h (rw (none_there, parse_request_result) refl))
      | inr (header_end, e) ↦
          let (end, at_end, after, within) = find_header_end-Ends buf header_end e in
          let line_same = parse_first_line-append buf more end at_end in
          elim (Option-cases (parse_first_line buf)) [
            | inl bad ↦
                rw
                  (
                    find_header_end-append buf more header_end e,
                    e,
                    line_same,
                    bad,
                    parse_request_result,
                  )
                  refl
            | inr (line, e') ↦
                let is_within = parse_first_line-IsWithin buf end line at_end e' in
                rw
                  (
                    find_header_end-append buf more header_end e,
                    e,
                    line_same,
                    e',
                    parse_request_result,
                  )
                  (parse_rest-append buf more header_end end line is_within after within
                    (rw (e, e', parse_request_result) at h))
          ]
    ]
