-- ===== src/Lb/Settings.antt =====
-- src/lb/main.rs: the settings that name the upstreams. White space is ASCII here.
use rinha_rust_tree.Prelude.{
  ℕ, ◌+◌, ◌-◌, ◌*◌, ◌^◌, ◌≡◌, refl, Bool, true, ◌&&◌, ◌||◌, List, [], ◌∷◌, ◌++◌, Option, none, some,
  inl, inr, ltb, leb, ◌==◌, if◌then◌else◌, Bool-cases, Option-cases, length, take, All, All-append,
}
use mathlib.Core.List.{reverse}
use mathlib.Core.Path.{subst}
use rinha_rust_tree.Http.Bytes.{Bytes, codes, starts_with}

pub record WorkerSpec : Type 0 where
  pub cpu : ℕ
  pub socket_path : Bytes

-- the texts of the errors
pub data WorkerMapError : Type 0 where
  no_colon : WorkerMapError
  invalid_cpu : WorkerMapError
  relative_path : WorkerMapError

pub data Parsed : Type 0 where
  ok : List WorkerSpec → Parsed
  err : WorkerMapError → Parsed

abbrev is_space : ℕ → Bool
is_space b = b == 32 || (leb 9 b && leb b 13)

unfoldable pub trim_start : Bytes → Bytes
trim_start [] = []
trim_start (b ∷ s) = let rest = trim_start s in if is_space b then rest else b ∷ s

-- `str::trim`
unfoldable pub trim : Bytes → Bytes
unfolding trim_start
trim s = reverse (trim_start (reverse (trim_start s)))

abbrev add_byte : ℕ → List Bytes → List Bytes
add_byte b [] = (b ∷ []) ∷ []
add_byte b (part ∷ parts) = (b ∷ part) ∷ parts

-- `str::split` at a byte
unfoldable pub split : ℕ → Bytes → List Bytes
split sep [] = [] ∷ []
split sep (b ∷ s) = let rest = split sep s in if b == sep then [] ∷ rest else add_byte b rest

-- `split_once`
unfoldable pub split_once : ℕ → Bytes → Option (Bytes × Bytes)
split_once sep [] = none
split_once sep (b ∷ s) =
    let rest = split_once sep s in
    if b == sep
    then some ([], s)
    else elim rest [ none ↦ none | some (before, after) ↦ some (b ∷ before, after) ]

-- The digits of a usize, which must not overflow.
unfoldable pub usize_digits : ℕ → Bytes → Option ℕ
usize_digits val [] = some val
usize_digits val (b ∷ s) =
    let rest = usize_digits (val * 10 + (b - 48)) s in
    if leb 48 b && leb b 57 && ltb (val * 10 + (b - 48)) (2 ^ 64) then rest else none

-- `parse::<usize>`
unfoldable pub parse_usize : Bytes → Option ℕ
unfolding usize_digits
parse_usize [] = none
parse_usize (b ∷ s) =
    if b == 43
    then elim s [ [] ↦ none | c ∷ rest ↦ usize_digits 0 (c ∷ rest) ]
    else usize_digits 0 (b ∷ s)

-- behind the colon's place and the CPU
abbrev pub with_path : ℕ → Bytes → Option WorkerSpec
with_path cpu socket_path =
    if starts_with socket_path (codes "/")
    then some (record { cpu = cpu; socket_path = socket_path })
    else none

abbrev pub push_spec : List WorkerSpec → Option WorkerSpec → Option (List WorkerSpec)
push_spec specs none = none
push_spec specs (some spec) = some (specs ++ (spec ∷ []))

-- `for entry in value.split(',')`
unfoldable pub parse_entries : List Bytes → List WorkerSpec → Parsed
unfolding trim split_once parse_usize starts_with
parse_entries [] specs = ok specs
parse_entries (entry ∷ entries) specs = elim (split_once 58 (trim entry)) [
  | none ↦ err no_colon
  | some (cpu_text, socket_path) ↦ elim (parse_usize cpu_text) [
    | none ↦ err invalid_cpu
    | some cpu ↦ elim (push_spec specs (with_path cpu socket_path)) [
      | none ↦ err relative_path
      | some specs' ↦ parse_entries entries specs'
    ]
  ]
]

-- There is an entry for every part of a split, so the last check of the code never fails.
unfoldable pub parse_worker_map : Bytes → Parsed
unfolding trim split parse_entries
parse_worker_map value = elim (trim value) [
  | [] ↦ ok []
  | b ∷ s ↦ parse_entries (split 44 (b ∷ s)) []
]

-- the parts that are not empty
unfoldable pub non_empty : List Bytes → List Bytes
non_empty [] = []
non_empty ([] ∷ parts) = non_empty parts
non_empty ((b ∷ s) ∷ parts) = (b ∷ s) ∷ non_empty parts

abbrev trim_all : List Bytes → List Bytes
trim_all [] = []
trim_all (part ∷ parts) = trim part ∷ trim_all parts

abbrev pub max_upstream_nodes : ℕ
max_upstream_nodes = 32

-- The upstreams of `load_from_environment`, out of the value of API_SOCKETS.
unfoldable pub upstream_paths : Bytes → List Bytes
unfolding split trim non_empty
upstream_paths value = take max_upstream_nodes (non_empty (trim_all (split 44 value)))

-- the length check of `build_unix_address`
unfoldable pub fits_unix_address : Bytes → Bool
fits_unix_address path = ltb 0 (length path) && ltb (length path) 108

abbrev pub IsAbsolute : WorkerSpec → Type 0
IsAbsolute spec = starts_with spec.socket_path (codes "/") ≡ true

push_spec-IsAbsolute :
    (specs out : List WorkerSpec) (cpu : ℕ) (path : Bytes)
    → All IsAbsolute specs
    → push_spec specs (with_path cpu path) ≡ some out
    → All IsAbsolute out
push_spec-IsAbsolute specs out cpu path h e = elim (Bool-cases (starts_with path (codes "/"))) [
  | inl f ↦
      let e' = rw f at e in
      let last : All IsAbsolute (record { cpu = cpu; socket_path = path } ∷ []) = (f, tt) in
      let same : specs ++ (record { cpu = cpu; socket_path = path } ∷ []) ≡ out = cc in
      subst (All IsAbsolute) same
        (All-append IsAbsolute specs (record { cpu = cpu; socket_path = path } ∷ []) h last)
  | inr f ↦ let e' = rw f at e in cc
]

parse_entries-IsAbsolute :
    (entries : List Bytes) (specs out : List WorkerSpec)
    → All IsAbsolute specs
    → parse_entries entries specs ≡ ok out
    → All IsAbsolute out
unfolding parse_entries
parse_entries-IsAbsolute [] specs out h e = subst (All IsAbsolute) (cc) h
parse_entries-IsAbsolute (entry ∷ entries) specs out h e =
    elim (Option-cases (split_once 58 (trim entry))) [
      | inl f ↦ let e' = rw (f, parse_entries) at e in cc
      | inr ((cpu_text, path), f) ↦ elim (Option-cases (parse_usize cpu_text)) [
        | inl g ↦ let e' = rw (f, g, parse_entries) at e in cc
        | inr (cpu, g) ↦ elim (Option-cases (push_spec specs (with_path cpu path))) [
          | inl p ↦ let e' = rw (f, g, p, parse_entries) at e in cc
          | inr (specs', p) ↦
              parse_entries-IsAbsolute entries specs' out
                (push_spec-IsAbsolute specs specs' cpu path h p) (rw (f, g, p, parse_entries) at e)
        ]
      ]
    ]

-- Every entry of a worker map that `parse_worker_map` accepts has a socket path that starts with
-- a slash.
pub parse_worker_map-IsAbsolute :
    (value : Bytes) (specs : List WorkerSpec)
    → parse_worker_map value ≡ ok specs
    → All IsAbsolute specs
unfolding parse_worker_map
parse_worker_map-IsAbsolute value specs e = list_cases (trim value) refl
  where
    list_cases : (t : Bytes) → trim value ≡ t → All IsAbsolute specs
    list_cases [] f =
        let e' : ok [] ≡ ok specs = rw (f, parse_worker_map) at e in
        let same : [] ≡ specs = cc in subst (All IsAbsolute) same tt
    list_cases (b ∷ s) f =
        parse_entries-IsAbsolute (split 44 (b ∷ s)) [] specs tt (rw (f, parse_worker_map) at e)
