-- ===== src/FdPassing/Write.antt =====
-- src/fd_passing/evented.rs: writing a batch, from where the last write stopped.
pub mod Armed
pub mod Iovecs
pub mod Sent
use rinha_rust_tree.Prelude.{
  ℕ, zero, suc, ◌+◌, ◌-◌, Bool, true, false, List, [], ◌∷◌, ◌++◌, Option, none, some, ltb, leb,
  ◌==◌, if◌then◌else◌, length, take, drop, min,
}
use rinha_rust_tree.Http.Bytes.{Bytes, slice}
use rinha_rust_tree.FdPassing.Batch.{ResponseBatch, as_slice, total_len}
use rinha_rust_tree.FdPassing.Conn.{ConnState, writing, reading, epollout, recycle_buf}
use rinha_rust_tree.FdPassing.Server.{
  WriteResult, wrote, write_again, write_failed, sent, Server, emit, with_conns, conn_arm_epoll,
  shutdown_client,
}

abbrev pub max_iovecs : ℕ
max_iovecs = 32

-- The slices that are still to send; `room` is the number of entries that are left.
unfoldable pub build_iovecs : List Bytes → ℕ → ℕ → List Bytes
build_iovecs [] written room = []
build_iovecs (resp ∷ responses) written zero = []
build_iovecs (resp ∷ responses) written (suc room) =
    let len = length resp in
    let skip = leb len written in
    let rest =
      build_iovecs responses (if skip then written - len else 0)
        (if skip then suc room else room) in
    if skip then rest else drop written resp ∷ rest

unfoldable pub concat : List Bytes → Bytes
concat [] = []
concat (xs ∷ xss) = xs ++ concat xss

-- `buf.copy_within(off..off + len, 0)`
unfoldable pub copy_within : Bytes → ℕ → ℕ → Bytes
copy_within buf off len = slice buf off (off + len) ++ drop len buf

pub data WriteOutcome : Type 0 where
  done_reading : Bytes → ℕ → WriteOutcome
  wait : ConnState → WriteOutcome
  closed : WriteOutcome

-- What `ConnState::Writing` keeps besides the position.
pub record Pending : Type 0 where
  pub buf : Bytes
  pub responses : ResponseBatch
  pub leftover_off : ℕ
  pub leftover_len : ℕ
  pub keep_alive : Bool

abbrev pub give_up : Server → ℕ → Pending → WriteOutcome × Server
give_up s fd p = (closed, shutdown_client (with_conns s (recycle_buf s.conns p.buf)) fd)

unfoldable pub all_written : Server → ℕ → Pending → WriteOutcome × Server
unfolding copy_within
all_written s fd p =
    if ltb 0 p.leftover_len
    then (done_reading (copy_within p.buf p.leftover_off p.leftover_len) p.leftover_len, s)
    else if p.keep_alive
    then (done_reading p.buf 0, s)
    else give_up s fd p

abbrev pub blocked : Server → ℕ → Pending → ℕ → WriteOutcome × Server
blocked s fd p written = (
  wait (writing p.buf p.responses written p.leftover_off p.leftover_len p.keep_alive),
  conn_arm_epoll s fd epollout,
)

abbrev pub is_nil : List Bytes → Bool
is_nil [] = true
is_nil (_ ∷ _) = false

-- `writev` takes one byte at least, and at most what it is offered.
abbrev pub accepted : ℕ → List Bytes → Bytes
accepted n iovs = take (suc n) (concat iovs)

-- The loop, on the results of its `writev` calls.
unfoldable pub write_loop : List WriteResult → Server → ℕ → Pending → ℕ → WriteOutcome × Server
unfolding build_iovecs concat all_written total_len
write_loop [] s fd p written =
    let s = record s { writes = [] } in
    if is_nil (build_iovecs (as_slice p.responses) written max_iovecs)
    then all_written s fd p
    else blocked s fd p written
write_loop (result ∷ writes) s fd p written =
    let iovs = build_iovecs (as_slice p.responses) written max_iovecs in
    if is_nil iovs then all_written (record s { writes = result ∷ writes }) fd p else elim result [
      | wrote n ↦
          let bytes = accepted n iovs in
          let after = emit (record s { writes = writes }) (sent fd bytes) in
          if written + length bytes == total_len p.responses
          then all_written after fd p
          else write_loop writes after fd p (written + length bytes)
      | write_again ↦ blocked (record s { writes = writes }) fd p written
      | write_failed ↦ give_up (record s { writes = writes }) fd p
    ]

unfoldable pub finish_write : Server → ℕ → ConnState → WriteOutcome × Server
unfolding write_loop
finish_write s fd (reading buf used) = (closed, s)
finish_write s fd (writing buf responses written leftover_off leftover_len keep_alive) =
    write_loop s.writes s fd
      (record {
        buf = buf;
        responses = responses;
        leftover_off = leftover_off;
        leftover_len = leftover_len;
        keep_alive = keep_alive;
      })
      written
