-- ===== src/FdPassing/Evented.antt =====
-- src/fd_passing/evented.rs, src/fd_passing/io.rs: reading, answering and the events of a client.
-- The loops run on fuel: `drive_reading` is entered again only behind an answered request, so the
-- number of bytes that are read is enough for it, and for its inner loop as well.
pub mod Armed
pub mod Fuel
pub mod Reads
use rinha_rust_tree.Prelude.{
  ℕ, zero, suc, ◌+◌, ◌-◌, Bool, true, false, ◌&&◌, ◌||◌, List, [], ◌∷◌, ◌++◌, Option, none, some,
  ltb, leb, ◌==◌, if◌then◌else◌, length, take, drop, not,
}
use rinha_rust_tree.Http.Bytes.{Bytes, slice}
use rinha_rust_tree.Http.Responses.{Response, response_bytes, bad_request}
use rinha_rust_tree.Http.Parser.{
  Request, Run, returned, panicked, BufferStep, respond, reject_and_close, needs_more,
  process_one_request,
}
use rinha_rust_tree.FdPassing.Batch.{ResponseBatch, push, single, or_same, is_empty, new}
use rinha_rust_tree.FdPassing.Conn.{
  ConnState, writing, reading, epollin, recycle_buf, alloc_buf, insert, remove, buf_size,
  max_client_fd,
}
use rinha_rust_tree.FdPassing.Server.{
  Server, emit, close_fd, with_conns, conn_arm_epoll, shutdown_client, close_conn,
}
use rinha_rust_tree.FdPassing.Write.{
  WriteOutcome, done_reading, wait, closed, copy_within, finish_write,
}

pub data ReadResult : Type 0 where
  read_bytes : ℕ → Bytes → ReadResult
  read_eof read_again read_failed : ReadResult

pub data ReadOutcome : Type 0 where
  data_read : ℕ → ReadOutcome
  would_block read_closed : ReadOutcome

abbrev overwrite : Bytes → ℕ → Bytes → Bytes
overwrite buf used bytes = take used buf ++ bytes ++ drop (used + length bytes) buf

-- The reads of one event, on the results of `read`: one byte at least, and at most what the
-- buffer has room for. When the results are used up, `read` would block.
unfoldable pub greedy_read : List ReadResult → Bytes → ℕ → ReadOutcome × Bytes
greedy_read [] buf used = (if ltb 0 used then data_read used else would_block, buf)
greedy_read (result ∷ results) buf used =
    if leb buf_size used then (data_read used, buf) else elim result [
      | read_bytes b bs ↦
          let bytes = take (buf_size - used) (b ∷ bs) in
          if leb buf_size (used + length bytes)
          then (data_read (used + length bytes), overwrite buf used bytes)
          else greedy_read results (overwrite buf used bytes) (used + length bytes)
      | read_eof ↦ (if ltb 0 used then data_read used else read_closed, buf)
      | read_again ↦ (if ltb 0 used then data_read used else would_block, buf)
      | read_failed ↦ (read_closed, buf)
    ]

pub record Processed : Type 0 where
  pub processed : ℕ
  pub responses : ResponseBatch
  pub keep_alive : Bool

-- How a handler ends. The release build aborts on a panic.
pub data Drive : Type 0 where
  ran : Server → Drive
  aborted out_of_fuel : Drive

abbrev pub keep_reading : Server → ℕ → Bytes → ℕ → Server
keep_reading s fd buf used =
    let armed = conn_arm_epoll s fd epollin in
    with_conns armed (insert armed.conns fd (reading buf used))

-- the match of `start_write` on the outcome of the write
unfoldable pub after_start :
    (Server → ℕ → Bytes → ℕ → Drive) → ℕ → Bool → WriteOutcome × Server → Drive
after_start drive fd keep_alive (done_reading rest used, s) =
    if ltb 0 used
    then drive s fd rest used
    else if keep_alive
    then ran (keep_reading s fd rest 0)
    else ran (shutdown_client s fd)
after_start drive fd keep_alive (wait state, s) = ran (with_conns s (insert s.conns fd state))
after_start drive fd keep_alive (closed, s) = ran s

-- the match of `on_writable`
unfoldable pub after_writable : (Server → ℕ → Bytes → ℕ → Drive) → ℕ → WriteOutcome × Server → Drive
after_writable drive fd (done_reading rest used, s) =
    if ltb 0 used then drive s fd rest used else ran (keep_reading s fd rest 0)
after_writable drive fd (wait state, s) = ran (with_conns s (insert s.conns fd state))
after_writable drive fd (closed, s) = ran s

unfoldable pub start_write :
    (Server → ℕ → Bytes → ℕ → Drive) → Server → ℕ → Bytes → ResponseBatch → ℕ → ℕ → Bool → Drive
unfolding finish_write after_start
start_write drive s fd buf responses leftover_off leftover_len keep_alive =
    after_start drive fd keep_alive
      (finish_write s fd (writing buf responses 0 leftover_off leftover_len keep_alive))

-- the match of `on_new_client_fd` on what was read
unfoldable pub after_first_read :
    (Server → ℕ → Bytes → ℕ → Drive) → Server → ℕ → ReadOutcome × Bytes → Drive
after_first_read drive s fd (data_read used, buf) = drive s fd buf used
after_first_read drive s fd (would_block, buf) = ran (keep_reading s fd buf 0)
after_first_read drive s fd (read_closed, buf) =
    ran (emit (with_conns s (recycle_buf s.conns buf)) (close_fd fd))

-- the match of `on_readable`, on a connection that is taken out
unfoldable pub after_read :
    (Server → ℕ → Bytes → ℕ → Drive) → Server → ℕ → ℕ → ReadOutcome × Bytes → Drive
after_read drive s fd used (data_read now, buf) = drive s fd buf now
after_read drive s fd used (would_block, buf) =
    ran (with_conns s (insert s.conns fd (reading buf used)))
after_read drive s fd used (read_closed, buf) =
    ran (close_conn (with_conns s (recycle_buf s.conns buf)) fd)

abbrev pub nothing_processed : Processed
nothing_processed = record { processed = 0; responses = new; keep_alive = true }

-- the response is pushed; a full batch ends the loop, behind the request
unfoldable pub after_push :
    (Processed → Option (Run Processed))
    → Processed
    → ℕ
    → Bool
    → Option ResponseBatch
    → Option (Run Processed)
after_push again p consumed keep_alive none =
    some (returned (record p { processed = p.processed + consumed; keep_alive = false }))
after_push again p consumed keep_alive (some responses) = again (record {
  processed = p.processed + consumed;
  responses = responses;
  keep_alive = p.keep_alive && keep_alive;
})

-- the match on `process_one_request`
unfoldable pub after_request :
    (Processed → Option (Run Processed)) → ℕ → Processed → Run BufferStep → Option (Run Processed)
unfolding push after_push
after_request again used p panicked = some panicked
after_request again used p (returned needs_more) = some (returned p)
after_request again used p (returned (reject_and_close response)) = some (
    returned (record {
      processed = used;
      responses = or_same p.responses (push p.responses (response_bytes response));
      keep_alive = false;
    }))
after_request again used p (returned (respond consumed response keep_alive)) =
    after_push again p consumed keep_alive (push p.responses (response_bytes response))

-- what `drive_reading` does behind its inner loop
unfoldable pub after_process :
    (Server → ℕ → Bytes → ℕ → Drive) → Server → ℕ → Bytes → ℕ → Option (Run Processed) → Drive
unfolding start_write is_empty copy_within
after_process drive s fd buf used none = out_of_fuel
after_process drive s fd buf used (some panicked) = aborted
after_process drive s fd buf used (some (returned p)) =
    if not (is_empty p.responses)
    then start_write drive s fd buf p.responses p.processed (used - p.processed) p.keep_alive
    else if ltb 0 p.processed
    then ran
        (keep_reading s fd (copy_within buf p.processed (used - p.processed)) (used - p.processed))
    else ran (keep_reading s fd buf used)

module _ (memmem : Bytes → Bytes → Option ℕ) (assume_keep_alive : Bool)
    (handler : Request → Response) where
  -- `while processed < used`
  unfoldable pub process_loop : ℕ → Bytes → ℕ → Processed → Option (Run Processed)
  unfolding after_request
  process_loop zero buf used p = none
  process_loop (suc fuel) buf used p =
      if leb used p.processed
      then some (returned p)
      else after_request (process_loop fuel buf used) used p
          (process_one_request memmem assume_keep_alive handler (slice buf p.processed used))

  unfoldable pub drive_reading : ℕ → Server → ℕ → Bytes → ℕ → Drive
  unfolding start_write single after_process
  drive_reading zero s fd buf used = out_of_fuel
  drive_reading (suc fuel) s fd buf used =
      if leb buf_size used
      then start_write (drive_reading fuel) s fd buf (single (response_bytes bad_request)) 0 0 false
      else after_process (drive_reading fuel) s fd buf used
          (process_loop (suc used) buf used nothing_processed)

  abbrev pub drive : Server → ℕ → Bytes → ℕ → Drive
  drive s fd buf used = drive_reading (suc used) s fd buf used

  -- `configured` says whether the descriptor is non-blocking already, or could be made so.
  unfoldable pub on_new_client_fd : Bool → List ReadResult → Server → ℕ → Drive
  unfolding greedy_read alloc_buf after_first_read
  on_new_client_fd configured reads s fd =
      let (empty, conns) = alloc_buf s.conns in
      if leb max_client_fd fd || not configured
      then ran (emit s (close_fd fd))
      else after_first_read drive (with_conns s conns) fd (greedy_read reads empty 0)

  -- the match of `on_readable` on the slot, which is taken out
  unfoldable pub readable_state : List ReadResult → Server → ℕ → Option ConnState → Drive
  unfolding greedy_read after_read
  readable_state reads s fd none = ran s
  readable_state reads s fd (some (reading buf used)) =
      after_read drive s fd used (greedy_read reads buf used)
  readable_state reads s fd (some (writing buf responses written off len keep_alive)) =
      ran (with_conns s (insert s.conns fd (writing buf responses written off len keep_alive)))

  unfoldable pub on_readable : List ReadResult → Server → ℕ → Drive
  unfolding remove readable_state
  on_readable reads s fd =
      readable_state reads (with_conns s (remove s.conns fd).1) fd (remove s.conns fd).0

  -- the match of `on_writable` on the slot
  unfoldable pub writable_state : Server → ℕ → Option ConnState → Drive
  unfolding finish_write after_writable
  writable_state s fd none = ran s
  writable_state s fd (some (reading buf used)) =
      ran (with_conns s (insert s.conns fd (reading buf used)))
  writable_state s fd (some (writing buf responses written off len keep_alive)) =
      after_writable drive fd (finish_write s fd (writing buf responses written off len keep_alive))

  unfoldable pub on_writable : Server → ℕ → Drive
  unfolding remove writable_state
  on_writable s fd = writable_state (with_conns s (remove s.conns fd).1) fd (remove s.conns fd).0
