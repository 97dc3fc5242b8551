-- ===== src/FdPassing/Evented/Fuel.antt =====
-- src/fd_passing/evented.rs: the loops end: every round answers a request, and consumes it.
use rinha_rust_tree.Prelude.{
  ℕ, zero, suc, ◌+◌, ◌-◌, ◌<◌, ◌≤◌, ◌≡◌, ◌≢◌, ◌⊎◌, refl, sym, Bool, true, false, not, ◌||◌, List,
  Option, none, some, arith, inl, inr, ltb, leb, Bool-cases, leb-false, leb→le, length-take, drop,
}
use rinha_rust_tree.Http.Bytes.{Bytes, IsMemmem, slice}
use rinha_rust_tree.Http.Responses.{Response}
use rinha_rust_tree.Http.Parser.{
  Request, Run, returned, panicked, complete, reject, need_more, respond, reject_and_close,
  needs_more, process_one_request, ParseResult, BufferStep, answer,
}
use rinha_rust_tree.Http.Parser.Routes.{parse_request_result-complete}
use rinha_rust_tree.FdPassing.Batch.{ResponseBatch, is_empty}
use rinha_rust_tree.FdPassing.Conn.{ConnState, writing, reading, max_client_fd, remove, buf_size}
use rinha_rust_tree.FdPassing.Server.{Server, WriteResult, with_conns}
use rinha_rust_tree.FdPassing.Write.{
  Pending, WriteOutcome, done_reading, wait, closed, finish_write,
}
use rinha_rust_tree.FdPassing.Write.Iovecs.{append_nil}
use rinha_rust_tree.FdPassing.Write.Sent.{Sends, finish_write-Sends, stream}
use rinha_rust_tree.FdPassing.Evented.{
  Drive, ran, out_of_fuel, start_write, after_process, after_start, after_writable, after_read,
  after_first_read, readable_state, writable_state, process_loop, after_push, after_request,
  nothing_processed, drive_reading, drive, Processed, ReadResult, ReadOutcome, data_read,
  would_block, read_closed, on_new_client_fd, on_readable, on_writable,
}

-- The loop has consumed at most what was read, and something of it if it has an answer.
abbrev Progress : ℕ → Processed → Type 0
Progress used p = (p.processed ≤ used) × ((is_empty p.responses ≡ true) ⊎ (0 < p.processed))

abbrev LoopEnds : ℕ → Option (Run Processed) → Type 0
LoopEnds used none = suc used ≤ 0
LoopEnds used (some panicked) = Unit
LoopEnds used (some (returned p)) = Progress used p

abbrev StepFits : ℕ → Run BufferStep → Type 0
StepFits n (returned (respond consumed response keep)) = (4 ≤ consumed) × (consumed ≤ n)
StepFits n _ = Unit

answer-StepFits :
    (handler : Request → Response) (n : ℕ) (result : Run ParseResult)
    → ((req : Request) (consumed : ℕ)
        → result ≡ returned (complete req consumed)
        → (4 ≤ consumed) × (consumed ≤ n))
    → StepFits n (answer handler result)
unfolding answer
answer-StepFits handler n (returned (complete req consumed)) h = h req consumed refl
answer-StepFits handler n (returned (reject response)) h = tt
answer-StepFits handler n (returned need_more) h = tt
answer-StepFits handler n panicked h = tt

abbrev LoopStep : (Processed → Option (Run Processed)) → ℕ → ℕ → Type 0
LoopStep again used start =
    (p : Processed) → start < p.processed → p.processed ≤ used → LoopEnds used (again p)

module _ (again : Processed → Option (Run Processed)) (used : ℕ) (p : Processed)
    (h : LoopStep again used p.processed) where
  after_push-LoopEnds :
      (consumed : ℕ) (keep : Bool) (batch : Option ResponseBatch)
      → 4 ≤ consumed
      → p.processed + consumed ≤ used
      → LoopEnds used (after_push again p consumed keep batch)
  unfolding after_push
  after_push-LoopEnds consumed keep none l fits = (fits, inr (omega arith))
  after_push-LoopEnds consumed keep (some responses) l fits = h _ (omega arith) fits

  after_request-LoopEnds :
      (step : Run BufferStep)
      → p.processed < used
      → Progress used p
      → StepFits (used - p.processed) step
      → LoopEnds used (after_request again used p step)
  unfolding after_request
  after_request-LoopEnds panicked l progress fits = tt
  after_request-LoopEnds (returned needs_more) l progress fits = progress
  after_request-LoopEnds (returned (reject_and_close response)) l progress fits =
      (omega arith, inr (omega arith))
  after_request-LoopEnds (returned (respond consumed response keep)) l progress fits =
      after_push-LoopEnds consumed keep _ fits.0 (omega arith)

ran_ends : (s : Server) → ran s ≢ out_of_fuel
ran_ends s e = cc

abbrev DrivesBelow : (Server → ℕ → Bytes → ℕ → Drive) → ℕ → Type 0
DrivesBelow drive n =
    (s : Server) (fd : ℕ) (buf : Bytes) (used : ℕ) → used < n → drive s fd buf used ≢ out_of_fuel

module _ (drive : Server → ℕ → Bytes → ℕ → Drive) (n : ℕ) (h : DrivesBelow drive n) where
  after_start-ends :
      (base : Bytes) (script : List WriteResult) (fd : ℕ) (p : Pending) (keep : Bool)
      (o : WriteOutcome × Server)
      → p.leftover_len < n
      → Sends base script fd p o
      → after_start drive fd keep o ≢ out_of_fuel
  unfolding after_start
  after_start-ends base script fd p keep (done_reading rest used, s) l (same, _, _, _, _) =
      elim (Bool-cases (ltb 0 used)) [
        | inl more ↦ rw (more, after_start) (h s fd rest used (omega arith))
        | inr no_more ↦ elim (Bool-cases keep) [
          | inl kept ↦ rw (no_more, kept, after_start) (ran_ends _)
          | inr dropped ↦ rw (no_more, dropped, after_start) (ran_ends _)
        ]
      ]
  after_start-ends base script fd p keep (wait state, s) l sends = ran_ends _
  after_start-ends base script fd p keep (closed, s) l sends = ran_ends _

  start_write-ends :
      (s : Server) (fd : ℕ) (buf : Bytes) (responses : ResponseBatch) (off len : ℕ) (keep : Bool)
      → len < n
      → start_write drive s fd buf responses off len keep ≢ out_of_fuel
  unfolding start_write
  start_write-ends s fd buf responses off len keep l =
      let p : Pending = record {
        buf = buf;
        responses = responses;
        leftover_off = off;
        leftover_len = len;
        keep_alive = keep;
      } in
      after_start-ends (stream fd s.log) s.writes fd p keep _ l (
        finish_write-Sends s fd p 0 (stream fd s.log) (omega arith)
          (sym (append_nil (stream fd s.log))))

  after_process-ends :
      (s : Server) (fd : ℕ) (buf : Bytes) (used : ℕ) (o : Option (Run Processed))
      → used ≤ n
      → LoopEnds used o
      → after_process drive s fd buf used o ≢ out_of_fuel
  unfolding after_process
  after_process-ends s fd buf used none l ends = absurd (omega arith)
  after_process-ends s fd buf used (some panicked) l ends = λ e. cc
  after_process-ends s fd buf used (some (returned p)) l (inside, progress) =
      elim (Bool-cases (is_empty p.responses)) [
        | inr answered ↦
            rw (answered, after_process)
              (start_write-ends s fd buf p.responses p.processed (used - p.processed) p.keep_alive
                (elim progress [
                  | inl nothing ↦ cc (answered, nothing)
                  | inr further ↦ omega arith
                ]))
        | inl nothing ↦ elim (Bool-cases (ltb 0 p.processed)) [
          | inl moved ↦ rw (nothing, moved, after_process) (ran_ends _)
          | inr same ↦ rw (nothing, same, after_process) (ran_ends _)
        ]
      ]

module _ {memmem : Bytes → Bytes → Option ℕ} (m : IsMemmem memmem) (assume : Bool)
    (handler : Request → Response) where
  process_one_request-StepFits :
      (buf : Bytes) (a b : ℕ)
      → StepFits (b - a) (process_one_request memmem assume handler (slice buf a b))
  unfolding process_one_request
  process_one_request-StepFits buf a b = answer-StepFits handler (b - a) _ (λ req consumed e.
      let (whole, inside, served) =
        parse_request_result-complete m assume (slice buf a b) req consumed e in
      (omega arith, omega (arith, length-take (b - a) (drop a buf))))

  process_loop-LoopEnds :
      (fuel : ℕ) (buf : Bytes) (used : ℕ) (p : Processed)
      → used < fuel + p.processed
      → Progress used p
      → LoopEnds used (process_loop memmem assume handler fuel buf used p)
  unfolding process_loop
  process_loop-LoopEnds zero buf used p h (le, pos) = absurd (omega arith)
  process_loop-LoopEnds (suc fuel) buf used p h (le, pos) =
      elim (Bool-cases (leb used p.processed)) [
        | inl done ↦ rw (done, process_loop) (le, pos)
        | inr more ↦
            rw (more, process_loop)
              (after_request-LoopEnds _ used p
                (λ q further inside.
                  process_loop-LoopEnds fuel buf used q (omega arith) (inside, inr (omega arith)))
                (process_one_request memmem assume handler (slice buf p.processed used))
                (leb-false used p.processed more) (le, pos)
                (process_one_request-StepFits buf p.processed used))
      ]

  drive_reading-ends : (n : ℕ) → DrivesBelow (drive_reading memmem assume handler n) n
  unfolding drive_reading
  drive_reading-ends zero s fd buf used l = absurd (omega arith)
  drive_reading-ends (suc n) s fd buf used l = elim (Bool-cases (leb buf_size used)) [
    | inl full ↦
        rw (full, drive_reading)
          (start_write-ends _ n (drive_reading-ends n) s fd buf _ 0 0 false
            (omega (arith, leb→le buf_size used full)))
    | inr room ↦
        rw (room, drive_reading)
          (after_process-ends _ n (drive_reading-ends n) s fd buf used _ (omega arith) (
            process_loop-LoopEnds (suc used) buf used nothing_processed (omega arith)
              (omega arith, inl refl)))
  ]

  -- The number of bytes that are read is fuel enough.
  drive-ends :
      (s : Server) (fd : ℕ) (buf : Bytes) (used : ℕ)
      → drive memmem assume handler s fd buf used ≢ out_of_fuel
  drive-ends s fd buf used = drive_reading-ends (suc used) s fd buf used (omega arith)

  after_first_read-ends :
      (s : Server) (fd : ℕ) (o : ReadOutcome × Bytes)
      → after_first_read (drive memmem assume handler) s fd o ≢ out_of_fuel
  unfolding after_first_read
  after_first_read-ends s fd (data_read now, buf) = drive-ends s fd buf now
  after_first_read-ends s fd (would_block, buf) = ran_ends _
  after_first_read-ends s fd (read_closed, buf) = ran_ends _

  after_read-ends :
      (s : Server) (fd used : ℕ) (o : ReadOutcome × Bytes)
      → after_read (drive memmem assume handler) s fd used o ≢ out_of_fuel
  unfolding after_read
  after_read-ends s fd used (data_read now, buf) = drive-ends s fd buf now
  after_read-ends s fd used (would_block, buf) = ran_ends _
  after_read-ends s fd used (read_closed, buf) = ran_ends _

  after_writable-ends :
      (fd : ℕ) (o : WriteOutcome × Server)
      → after_writable (drive memmem assume handler) fd o ≢ out_of_fuel
  unfolding after_writable
  after_writable-ends fd (done_reading rest used, s) = elim (Bool-cases (ltb 0 used)) [
    | inl more ↦ rw (more, after_writable) (drive-ends s fd rest used)
    | inr no_more ↦ rw (no_more, after_writable) (ran_ends _)
  ]
  after_writable-ends fd (wait state, s) = ran_ends _
  after_writable-ends fd (closed, s) = ran_ends _

  readable_state-ends :
      (reads : List ReadResult) (s : Server) (fd : ℕ) (state : Option ConnState)
      → readable_state memmem assume handler reads s fd state ≢ out_of_fuel
  unfolding readable_state
  readable_state-ends reads s fd none = ran_ends _
  readable_state-ends reads s fd (some (reading buf used)) = after_read-ends s fd used _
  readable_state-ends reads s fd (some (writing _ _ _ _ _ _)) = ran_ends _

  writable_state-ends :
      (s : Server) (fd : ℕ) (state : Option ConnState)
      → writable_state memmem assume handler s fd state ≢ out_of_fuel
  unfolding writable_state
  writable_state-ends s fd none = ran_ends _
  writable_state-ends s fd (some (reading buf used)) = ran_ends _
  writable_state-ends s fd (some (writing buf responses written off len keep)) =
      after_writable-ends fd (finish_write s fd (writing buf responses written off len keep))

  pub on_readable-ends :
      (reads : List ReadResult) (s : Server) (fd : ℕ)
      → on_readable memmem assume handler reads s fd ≢ out_of_fuel
  unfolding on_readable
  on_readable-ends reads s fd = readable_state-ends reads _ fd _

  pub on_writable-ends :
      (s : Server) (fd : ℕ) → on_writable memmem assume handler s fd ≢ out_of_fuel
  unfolding on_writable
  on_writable-ends s fd =
      writable_state-ends (with_conns s (remove s.conns fd).1) fd (remove s.conns fd).0

  pub on_new_client_fd-ends :
      (configured : Bool) (reads : List ReadResult) (s : Server) (fd : ℕ)
      → on_new_client_fd memmem assume handler configured reads s fd ≢ out_of_fuel
  unfolding on_new_client_fd
  on_new_client_fd-ends configured reads s fd =
      elim (Bool-cases (leb max_client_fd fd || not configured)) [
        | inl refused ↦ rw (refused, on_new_client_fd) (ran_ends _)
        | inr accepted ↦ rw (accepted, on_new_client_fd) (after_first_read-ends _ fd _)
      ]
