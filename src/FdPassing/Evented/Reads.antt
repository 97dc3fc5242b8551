-- ===== src/FdPassing/Evented/Reads.antt =====
-- src/fd_passing/io.rs: what is read stays within the buffer.
use rinha_rust_tree.Prelude.{
  ℕ, zero, suc, ◌+◌, ◌-◌, ◌≤◌, ◌<◌, ◌≡◌, refl, sym, ap, ◌∙◌, List, [], ◌∷◌, ◌++◌, arith, inl, inr,
  ltb, leb, if◌then◌else◌, Bool-cases, ltb→lt, ltb-false, leb→le, leb-false, length, take, drop,
  length-take, length-drop, length-append,
}
use rinha_rust_tree.Http.Bytes.{Bytes, take-append_le}
use rinha_rust_tree.FdPassing.Conn.{buf_size}
use rinha_rust_tree.FdPassing.Evented.{
  ReadResult, read_bytes, read_eof, read_again, read_failed, ReadOutcome, data_read, would_block,
  read_closed, overwrite, greedy_read,
}

-- What a read leaves: a buffer of the same size, with the bytes that were there before, and a
-- position inside it that has not moved back.
abbrev pub Reads : Bytes → ℕ → ReadOutcome × Bytes → Type 0
Reads buf used (data_read now, after) =
    (used ≤ now)
    × (now ≤ buf_size)
    × (0 < now)
    × (length after ≡ buf_size)
    × (take used after ≡ take used buf)
Reads buf used (would_block, after) = (used ≡ 0) × (length after ≡ buf_size)
Reads buf used (read_closed, after) = length after ≡ buf_size

overwrite-length :
    (buf : Bytes) (used : ℕ) (bytes : Bytes)
    → length buf ≡ buf_size
    → used + length bytes ≤ buf_size
    → length (overwrite buf used bytes) ≡ buf_size
overwrite-length buf used bytes h l = omega (
  arith,
  length-append (take used buf ++ bytes) (drop (used + length bytes) buf),
  length-append (take used buf) bytes,
  length-take used buf,
  length-drop (used + length bytes) buf,
)

take-take_le : (n m : ℕ) (xs : Bytes) → n ≤ m → take n (take m xs) ≡ take n xs
take-take_le zero m xs h = refl
take-take_le (suc n) zero xs h = absurd (omega arith)
take-take_le (suc n) (suc m) [] h = refl
take-take_le (suc n) (suc m) (x ∷ xs) h = ap (◌∷◌ x) (take-take_le n m xs (omega arith))

overwrite-keeps :
    (buf : Bytes) (used : ℕ) (bytes : Bytes)
    → used ≤ length buf
    → take used (overwrite buf used bytes) ≡ take used buf
overwrite-keeps buf used bytes h =
    take-append_le used (take used buf ++ bytes) (drop (used + length bytes) buf)
      (omega (arith, length-append (take used buf) bytes, length-take used buf))
    ∙ take-append_le used (take used buf) bytes (omega (arith, length-take used buf))
    ∙ take-take_le used used buf (omega arith)

room :
    (used b : ℕ) (bs : Bytes)
    → used ≤ buf_size
    → used + length (take (buf_size - used) (b ∷ bs)) ≤ buf_size
room used b bs h = omega (arith, length-take (buf_size - used) (b ∷ bs))

more : (used b : ℕ) (bs : Bytes) → used < buf_size → 1 ≤ length (take (buf_size - used) (b ∷ bs))
more used b bs h = omega (arith, length-take (buf_size - used) (b ∷ bs))

Reads-later :
    (buf : Bytes) (used used' : ℕ) (buf' : Bytes) (o : ReadOutcome × Bytes)
    → used ≤ used'
    → 0 < used'
    → take used buf' ≡ take used buf
    → Reads buf' used' o
    → Reads buf used o
Reads-later buf used used' buf' (data_read now, after) le pos same (a, b, c, d, e) = (
  omega arith,
  b,
  c,
  d,
  sym (take-take_le used used' after le)
      ∙ ap (take used) e
      ∙ take-take_le used used' buf' le
      ∙ same,
)
Reads-later buf used used' buf' (would_block, after) le pos same (a, b) = absurd (omega arith)
Reads-later buf used used' buf' (read_closed, after) le pos same h = h

kept :
    (buf : Bytes) (used : ℕ)
    → length buf ≡ buf_size
    → used ≤ buf_size
    → 0 < used
    → Reads buf used (data_read used, buf)
kept buf used h l pos = (omega arith, l, pos, h, refl)

nothing_more :
    (buf : Bytes) (used : ℕ)
    → length buf ≡ buf_size
    → used ≤ buf_size
    → Reads buf used (if ltb 0 used then data_read used else would_block, buf)
nothing_more buf used h l = elim (Bool-cases (ltb 0 used)) [
  | inl some_used ↦ rw some_used (kept buf used h l (ltb→lt 0 used some_used))
  | inr none_used ↦ rw none_used (omega (arith, ltb-false 0 used none_used), h)
]

at_end :
    (buf : Bytes) (used : ℕ)
    → length buf ≡ buf_size
    → used ≤ buf_size
    → Reads buf used (if ltb 0 used then data_read used else read_closed, buf)
at_end buf used h l = elim (Bool-cases (ltb 0 used)) [
  | inl some_used ↦ rw some_used (kept buf used h l (ltb→lt 0 used some_used))
  | inr none_used ↦ rw none_used h
]

-- The reads of one event fill the buffer behind what is there already: the position stays within
-- the 2048 bytes and what was read before is kept; a reading that blocks had nothing to begin with.
pub greedy_read-Reads :
    (results : List ReadResult) (buf : Bytes) (used : ℕ)
    → length buf ≡ buf_size
    → used ≤ buf_size
    → Reads buf used (greedy_read results buf used)
unfolding greedy_read
greedy_read-Reads [] buf used h l = nothing_more buf used h l
greedy_read-Reads (read_bytes b bs ∷ results) buf used h l = elim (Bool-cases (leb buf_size used)) [
  | inl whole ↦
      rw (whole, greedy_read) (kept buf used h l (omega (arith, leb→le buf_size used whole)))
  | inr space ↦
      let bytes = take (buf_size - used) (b ∷ bs) in
      let less = leb-false buf_size used space in
      let now = used + length bytes in
      let inside = room used b bs l in
      let further = more used b bs less in
      let buf' = overwrite buf used bytes in
      let sized = overwrite-length buf used bytes h inside in
      let same = overwrite-keeps buf used bytes (omega arith) in
      elim (Bool-cases (leb buf_size now)) [
        | inl full ↦ rw (space, full, greedy_read) (omega arith, inside, omega arith, sized, same)
        | inr again ↦
            rw (space, again, greedy_read)
              (Reads-later buf used now buf' (greedy_read results buf' now) (omega arith)
                (omega arith) same (greedy_read-Reads results buf' now sized inside))
      ]
]
greedy_read-Reads (read_eof ∷ results) buf used h l = elim (Bool-cases (leb buf_size used)) [
  | inl whole ↦
      rw (whole, greedy_read) (kept buf used h l (omega (arith, leb→le buf_size used whole)))
  | inr space ↦ rw (space, greedy_read) (at_end buf used h l)
]
greedy_read-Reads (read_again ∷ results) buf used h l = elim (Bool-cases (leb buf_size used)) [
  | inl whole ↦
      rw (whole, greedy_read) (kept buf used h l (omega (arith, leb→le buf_size used whole)))
  | inr space ↦ rw (space, greedy_read) (nothing_more buf used h l)
]
greedy_read-Reads (read_failed ∷ results) buf used h l = elim (Bool-cases (leb buf_size used)) [
  | inl whole ↦
      rw (whole, greedy_read) (kept buf used h l (omega (arith, leb→le buf_size used whole)))
  | inr space ↦ rw (space, greedy_read) h
]
