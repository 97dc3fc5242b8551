-- ===== src/Http/Parser/Lines.antt =====
-- src/http/parser.rs: where the parts of the first line stand in the buffer.
use rinha_rust_tree.Prelude.{
  ℕ, zero, suc, ◌+◌, ◌-◌, ◌≤◌, ◌<◌, ◌≡◌, refl, Bool, false, [], ◌∷◌, ◌++◌, none, some, arith, inl,
  inr, leb, Bool-cases, leb-false, Option-cases, get_or, length, take, drop, length-take,
  length-drop,
}
use rinha_rust_tree.Http.Bytes.{
  Bytes, position, slice, position-lt, position-append, slice-append, take-append_le,
}
use rinha_rust_tree.Http.Parser.{
  Line, Method, parse_path, parse_first_line, is_cr, is_space, method_of,
}

pub position-missing :
    (p : ℕ → Bool) (bytes : Bytes) (j : ℕ)
    → position p bytes ≡ none
    → j < length bytes
    → p (get_or bytes j 0) ≡ false
unfolding position
position-missing p [] j e l = absurd (omega arith)
position-missing p (b ∷ bytes) zero e l = ground arith
position-missing p (b ∷ bytes) (suc j) e l = ground (arith, position-missing p bytes j)

-- A line whose parts lie, in order, in front of `end`.
abbrev pub IsWithin : ℕ → Line → Type 0
IsWithin end line =
    (line.path_start ≤ line.path_end) × (line.path_end ≤ end) × (line.headers_len ≡ end + 2)

parse_path-IsWithin :
    (buf : Bytes) (end method_end : ℕ) (method : Method) (line : Line)
    → end ≤ length buf
    → parse_path buf end method_end method ≡ some line
    → IsWithin end line
unfolding parse_path
parse_path-IsWithin buf end method_end method line h e =
    elim (Option-cases (position is_space (slice buf (method_end + 1) end))) [
      | inl none_there ↦ ground arith
      | inr (i, e') ↦
          let l = position-lt is_space (slice buf (method_end + 1) end) i e' in
          ground (
            arith,
            length-take (end - (method_end + 1)) (drop (method_end + 1) buf),
            length-drop (method_end + 1) buf,
          )
    ]

parse_path-append :
    (buf more : Bytes) (end method_end : ℕ) (method : Method)
    → end ≤ length buf
    → parse_path (buf ++ more) end method_end method ≡ parse_path buf end method_end method
unfolding parse_path
parse_path-append buf more end method_end method h = elim (Bool-cases (leb end (method_end + 1))) [
  | inl short ↦ ground arith
  | inr l ↦
      rw
        (slice-append buf more (method_end + 1) end
          (omega (arith, leb-false end (method_end + 1) l)) h)
        refl
]

pub parse_first_line-append :
    (buf more : Bytes) (end : ℕ)
    → position is_cr buf ≡ some end
    → parse_first_line (buf ++ more) ≡ parse_first_line buf
unfolding parse_first_line
parse_first_line-append buf more end e =
    let l = position-lt is_cr buf end e in
    rw (position-append is_cr buf more end e, e)
      (rw (take-append_le end buf more (omega (arith, l)))
        elim (Option-cases (position is_space (take end buf))) [
          | inl none_there ↦ rw none_there refl
          | inr (i, e') ↦
              let l' = position-lt is_space (take end buf) i e' in
              let le : i ≤ length buf = omega (arith, length-take end buf) in
              rw (e', take-append_le i buf more le)
                (elim (Option-cases (method_of (take i buf))) [
                  | inl none_there ↦ rw none_there refl
                  | inr (method, e'') ↦
                      rw e'' (parse_path-append buf more end i method (omega arith))
                ])
        ])

pub parse_first_line-IsWithin :
    (buf : Bytes) (end : ℕ) (line : Line)
    → position is_cr buf ≡ some end
    → parse_first_line buf ≡ some line
    → IsWithin end line
unfolding parse_first_line
parse_first_line-IsWithin buf end line e h =
    let l = position-lt is_cr buf end e in
    elim (Option-cases (position is_space (take end buf))) [
      | inl none_there ↦ cc (rw (e, none_there) at h)
      | inr (i, e') ↦ elim (Option-cases (method_of (take i buf))) [
        | inl none_there ↦ cc (rw (e, e', none_there) at h)
        | inr (method, e'') ↦
            parse_path-IsWithin buf end i method line (omega arith) (rw (e, e', e'') at h)
      ]
    ]
