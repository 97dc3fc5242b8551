-- ===== src/Http/Parser.antt =====
-- src/http/parser.rs: one request at the front of a buffer.
-- `memmem` is the C library's search; `assume_keep_alive` is the environment's setting, which is
-- read once. Positions are offsets into the buffer.
pub mod Lines
pub mod Prefix
pub mod Routes
use rinha_rust_tree.Prelude.{
  ℕ, zero, suc, ◌+◌, ◌-◌, ◌*◌, ◌^◌, ◌%◌, min, Bool, true, false, not, ◌&&◌, ◌||◌, List, [], ◌∷◌,
  Option, none, some, ltb, leb, ◌==◌, if◌then◌else◌, get_or, length, take, drop,
}
use rinha_rust_tree.Http.Bytes.{Bytes, codes, position, slice, same_bytes}
use rinha_rust_tree.Http.Responses.{Response, bad_request, not_found}

abbrev pub max_body_len : ℕ
max_body_len = 8192

pub data Method : Type 0 where
  get post : Method

pub record Request : Type 0 where
  pub method : Method
  pub path : Bytes
  pub body : Bytes
  pub keep_alive : Bool

pub data ParseResult : Type 0 where
  complete : Request → ℕ → ParseResult
  reject : Response → ParseResult
  need_more : ParseResult

pub data BufferStep : Type 0 where
  respond : ℕ → Response → Bool → BufferStep
  reject_and_close : Response → BufferStep
  needs_more : BufferStep

-- A call returns, or it panics: a slice `&buf[a..b]` with `b < a` does.
pub data Run {ℓ} (A : Type ℓ) : Type ℓ where
  returned : A → Run A
  panicked : Run A

abbrev pub is_space : ℕ → Bool
is_space b = b == b' '

abbrev pub is_cr : ℕ → Bool
is_cr b = b == 13

unfoldable pub is_ws : ℕ → Bool
is_ws b = b == b' ' || b == 9

unfoldable pub is_digit : ℕ → Bool
is_digit b = leb b'0' b && leb b b'9'

unfoldable pub to_ascii_lowercase : ℕ → ℕ
to_ascii_lowercase b = if leb b'A' b && leb b b'Z' then b + 32 else b

unfoldable pub eq_ignore_ascii_case : Bytes → Bytes → Bool
unfolding to_ascii_lowercase
eq_ignore_ascii_case [] [] = true
eq_ignore_ascii_case (a ∷ xs) (b ∷ ys) =
    to_ascii_lowercase a == to_ascii_lowercase b && eq_ignore_ascii_case xs ys
eq_ignore_ascii_case _ _ = false

pub record Line : Type 0 where
  pub method : Method
  pub path_start : ℕ
  pub path_end : ℕ
  pub headers_len : ℕ

unfoldable pub method_of : Bytes → Option Method
unfolding same_bytes
method_of word =
    if same_bytes word (codes "GET")
    then some get
    else if same_bytes word (codes "POST")
    then some post
    else none

infixl 5 ◌>>=◌
abbrev pub ◌>>=◌ {ℓ κ} : {A : Type ℓ} {B : Type κ} → Option A → (A → Option B) → Option B
none >>= f = none
some a >>= f = f a

unfoldable pub parse_path : Bytes → ℕ → ℕ → Method → Option Line
unfolding position
parse_path buf end method_end method =
    let path_start = method_end + 1 in
    if leb end path_start then none else elim (position is_space (slice buf path_start end)) [
      | none ↦ none
      | some rel_path_end ↦
          if path_start + rel_path_end == path_start
          then none
          else some (record {
            method = method;
            path_start = path_start;
            path_end = path_start + rel_path_end;
            headers_len = end + 2;
          })
    ]

unfoldable pub parse_first_line : Bytes → Option Line
parse_first_line buf = do
  end ← position is_cr buf
  method_end ← position is_space (take end buf)
  method ← method_of (take method_end buf)
  parse_path buf end method_end method

abbrev pub usize_max : ℕ
usize_max = 2 ^ 64 - 1

-- The loop over the digits, with saturating arithmetic; any other byte makes the length 0.
unfoldable pub digits_value : Bytes → ℕ → ℕ
unfolding is_digit
digits_value [] num = num
digits_value (b ∷ bytes) num =
    let rest = digits_value bytes (min (min (num * 10) usize_max + (b - b'0')) usize_max) in
    if not (is_digit b) then 0 else rest

abbrev or_else : Option ℕ → ℕ → ℕ
or_else none d = d
or_else (some i) d = i

unfoldable pub parse_content_length_value : Bytes → ℕ
unfolding digits_value position is_ws
parse_content_length_value rest =
    let val_start = or_else (position (λ b. not (is_ws b)) rest) 0 in
    let tail = drop val_start rest in
    let val_end = or_else (position (λ b. is_cr b || is_ws b) tail) (length rest - val_start) in
    digits_value (slice rest val_start (val_start + val_end)) 0

-- `while i + NEEDLE.len() <= n`, on the headers from `i` on.
unfoldable pub content_length_scan : Bytes → ℕ
unfolding eq_ignore_ascii_case to_ascii_lowercase parse_content_length_value
content_length_scan [] = 0
content_length_scan (b ∷ bytes) =
    let rest = content_length_scan bytes in
    let window = take 15 (b ∷ bytes) in
    if ltb (length (b ∷ bytes)) 15
    then 0
    else if to_ascii_lowercase b == b'c' && eq_ignore_ascii_case window (codes "content-length:")
    then parse_content_length_value (drop 15 (b ∷ bytes))
    else rest

-- `headers.windows(17).any(..)`
unfoldable pub close_scan : Bytes → Bool
unfolding eq_ignore_ascii_case
close_scan [] = false
close_scan (b ∷ bytes) =
    (leb 17 (length (b ∷ bytes))
      && eq_ignore_ascii_case (take 17 (b ∷ bytes)) (codes "Connection: close"))
    || close_scan bytes

unfoldable pub early_rejection : Method → Bytes → ℕ → Option Response
unfolding same_bytes
early_rejection get path content_length =
    if same_bytes path (codes "/ready") then none else some not_found
early_rejection post path content_length =
    if same_bytes path (codes "/fraud-score")
    then (if leb content_length max_body_len then none else some bad_request)
    else some not_found

-- The request whose body ends at `body_end`, when that much of the buffer is filled.
unfoldable pub read_body : Bytes → ℕ → ℕ → (Bytes → Request) → Run ParseResult
read_body buf header_end body_end request =
    if ltb (length buf) body_end
    then returned need_more
    else if ltb body_end header_end
    then panicked
    else returned (complete (request (slice buf header_end body_end)) body_end)

-- What is left to do when the first line and the headers are read. `body_start + content_length`
-- wraps at 2 ^ 64, as the release build does.
unfoldable pub parse_body : Bytes → ℕ → Method → Bytes → ℕ → Bool → Run ParseResult
parse_body buf header_end method path content_length keep_alive =
    elim (early_rejection method path content_length) [
      | some response ↦ returned (reject response)
      | none ↦
          read_body buf header_end ((header_end + content_length) % 2 ^ 64)
            (λ body. record { method = method; path = path; body = body; keep_alive = keep_alive })
    ]

-- the match of `process_one_request`
unfoldable pub answer : (Request → Response) → Run ParseResult → Run BufferStep
answer handler (returned (complete req consumed)) =
    returned (respond consumed (handler req) req.keep_alive)
answer handler (returned (reject response)) = returned (reject_and_close response)
answer handler (returned need_more) = returned needs_more
answer handler panicked = panicked

module _ (memmem : Bytes → Bytes → Option ℕ) where
  unfoldable pub find_bytes : Bytes → Bytes → Option ℕ
  find_bytes haystack needle =
      if length needle == 0 || ltb (length haystack) (length needle)
      then none
      else memmem haystack needle

  unfoldable pub find_header_end : Bytes → Option ℕ
  find_header_end buf =
      if ltb (length buf) 4
      then none
      else (do found ← memmem buf (codes "\r\n\r\n"); some (found + 4))

  unfoldable pub find_content_length : Bytes → ℕ
  unfolding find_bytes content_length_scan parse_content_length_value
  find_content_length headers = elim (find_bytes headers (codes "Content-Length:")) [
    | some pos ↦ parse_content_length_value (drop (pos + 15) headers)
    | none ↦ content_length_scan headers
  ]

  abbrev is_found : Option ℕ → Bool
  is_found none = false
  is_found (some _) = true

  unfoldable pub contains_connection_close : Bytes → Bool
  unfolding find_bytes close_scan
  contains_connection_close headers =
      is_found (find_bytes headers (codes "Connection: close"))
      || is_found (find_bytes headers (codes "connection: close"))
      || close_scan headers

  module _ (assume_keep_alive : Bool) where
    -- The part behind the first line.
    unfoldable pub parse_rest : Bytes → ℕ → Line → Run ParseResult
    parse_rest buf header_end line =
        parse_body buf header_end line.method (slice buf line.path_start line.path_end)
          (find_content_length (slice buf line.headers_len header_end))
          (assume_keep_alive || not (contains_connection_close (take header_end buf)))

    unfoldable pub parse_request_result : Bytes → Run ParseResult
    parse_request_result buf = elim (find_header_end buf) [
      | none ↦ returned need_more
      | some header_end ↦ elim (parse_first_line buf) [
        | none ↦ returned (reject bad_request)
        | some line ↦ parse_rest buf header_end line
      ]
    ]

    unfoldable pub process_one_request : (Request → Response) → Bytes → Run BufferStep
    unfolding answer
    process_one_request handler buf = answer handler (parse_request_result buf)
