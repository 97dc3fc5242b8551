-- ===== src/FdPassing/Evented/Armed.antt =====
-- src/fd_passing/evented.rs: every handler leaves every connection registered for what it waits
-- for, and registers nothing else.
use rinha_rust_tree.Prelude.{
  ℕ, zero, suc, ◌<◌, ◌≡◌, refl, sym, ap, ◌∙◌, Bool, false, not, ◌||◌, List, Option, none, some,
  arith, inl, inr, ltb, leb, Bool-cases,
}
use rinha_rust_tree.Http.Bytes.{Bytes}
use rinha_rust_tree.Http.Responses.{Response}
use rinha_rust_tree.Http.Parser.{Request, Run, returned, panicked}
use rinha_rust_tree.FdPassing.Batch.{ResponseBatch, is_empty}
use rinha_rust_tree.FdPassing.Conn.{
  ConnTable, ConnState, writing, reading, epollin, recycle_buf, max_client_fd, alloc_buf, buf_size,
}
use rinha_rust_tree.FdPassing.Server.{Server, with_conns}
use rinha_rust_tree.FdPassing.Server.Armed.{
  armed_for, IsArmed, IsDetached, recycle-IsDetached, recycle-interests, absent-IsArmed,
  arm_and_insert-IsArmed, insert-IsArmed, remove-IsDetached, remove-found, remove-interests,
  shutdown-IsArmed, close_conn-IsArmed,
}
use rinha_rust_tree.FdPassing.Write.{WriteOutcome, done_reading, wait, closed}
use rinha_rust_tree.FdPassing.Write.Armed.{LeavesArmed, finish_write-LeavesArmed}
use rinha_rust_tree.FdPassing.Evented.{
  Drive, ran, aborted, out_of_fuel, keep_reading, start_write, after_process, after_start,
  after_writable, after_read, after_first_read, readable_state, writable_state, process_loop,
  nothing_processed, drive_reading, drive, Processed, ReadResult, ReadOutcome, data_read,
  would_block, read_closed, greedy_read, on_new_client_fd, on_readable, on_writable,
}

-- A handler that returns leaves every connection registered.
abbrev pub Leaves : Drive → Type 0
Leaves (ran s) = IsArmed s
Leaves aborted = Unit
Leaves out_of_fuel = Unit

keep_reading-IsArmed :
    (s : Server) (fd : ℕ) (buf : Bytes) (used : ℕ)
    → fd < max_client_fd
    → IsDetached s fd
    → IsArmed (keep_reading s fd buf used)
keep_reading-IsArmed s fd buf used below h =
    arm_and_insert-IsArmed s fd epollin (reading buf used) below refl h

abbrev IsDriver : (Server → ℕ → Bytes → ℕ → Drive) → Type 0
IsDriver drive =
    (s : Server) (fd : ℕ) (buf : Bytes) (used : ℕ)
    → fd < max_client_fd
    → IsDetached s fd
    → Leaves (drive s fd buf used)

module _ (drive : Server → ℕ → Bytes → ℕ → Drive) (is_driver : IsDriver drive) (fd : ℕ)
    (below : fd < max_client_fd) where
  after_start-Leaves :
      (keep : Bool) (o : WriteOutcome × Server)
      → LeavesArmed fd o
      → Leaves (after_start drive fd keep o)
  unfolding after_start
  after_start-Leaves keep (done_reading rest used, s) h = elim (Bool-cases (ltb 0 used)) [
    | inl more ↦ rw (more, after_start) (is_driver s fd rest used below h)
    | inr no_more ↦ elim (Bool-cases keep) [
      | inl kept ↦ rw (no_more, kept, after_start) (keep_reading-IsArmed s fd rest 0 below h)
      | inr dropped ↦ rw (no_more, dropped, after_start) (shutdown-IsArmed s fd below h)
    ]
  ]
  after_start-Leaves keep (wait state, s) (h, armed) = insert-IsArmed s fd state below armed h
  after_start-Leaves keep (closed, s) h = h

  after_writable-Leaves :
      (o : WriteOutcome × Server) → LeavesArmed fd o → Leaves (after_writable drive fd o)
  unfolding after_writable
  after_writable-Leaves (done_reading rest used, s) h = elim (Bool-cases (ltb 0 used)) [
    | inl more ↦ rw (more, after_writable) (is_driver s fd rest used below h)
    | inr no_more ↦ rw (no_more, after_writable) (keep_reading-IsArmed s fd rest 0 below h)
  ]
  after_writable-Leaves (wait state, s) (h, armed) = insert-IsArmed s fd state below armed h
  after_writable-Leaves (closed, s) h = h

  start_write-Leaves :
      (s : Server) (buf : Bytes) (responses : ResponseBatch) (off len : ℕ) (keep : Bool)
      → IsDetached s fd
      → Leaves (start_write drive s fd buf responses off len keep)
  unfolding start_write
  start_write-Leaves s buf responses off len keep h =
      after_start-Leaves keep _ (finish_write-LeavesArmed fd s buf responses 0 off len keep below h)

  after_process-Leaves :
      (s : Server) (buf : Bytes) (used : ℕ) (o : Option (Run Processed))
      → IsDetached s fd
      → Leaves (after_process drive s fd buf used o)
  unfolding after_process
  after_process-Leaves s buf used none h = tt
  after_process-Leaves s buf used (some panicked) h = tt
  after_process-Leaves s buf used (some (returned p)) h = elim (Bool-cases (is_empty p.responses)) [
    | inr answered ↦
        rw (answered, after_process) (start_write-Leaves s buf p.responses _ _ p.keep_alive h)
    | inl nothing ↦ elim (Bool-cases (ltb 0 p.processed)) [
      | inl moved ↦ rw (nothing, moved, after_process) (keep_reading-IsArmed s fd _ _ below h)
      | inr same ↦ rw (nothing, same, after_process) (keep_reading-IsArmed s fd buf used below h)
    ]
  ]

  after_read-Leaves :
      (s : Server) (used : ℕ) (o : ReadOutcome × Bytes)
      → IsDetached s fd
      → s.conns.interests fd ≡ some epollin
      → Leaves (after_read drive s fd used o)
  unfolding after_read
  after_read-Leaves s used (data_read now, buf) h armed = is_driver s fd buf now below h
  after_read-Leaves s used (would_block, buf) h armed =
      insert-IsArmed s fd (reading buf used) below armed h
  after_read-Leaves s used (read_closed, buf) h armed =
      close_conn-IsArmed _ fd below (recycle-IsDetached s fd buf h).1

  after_first_read-Leaves :
      (s : Server) (o : ReadOutcome × Bytes)
      → IsDetached s fd
      → s.conns.interests fd ≡ none
      → Leaves (after_first_read drive s fd o)
  unfolding after_first_read
  after_first_read-Leaves s (data_read now, buf) h armed = is_driver s fd buf now below h
  after_first_read-Leaves s (would_block, buf) h armed = keep_reading-IsArmed s fd buf 0 below h
  after_first_read-Leaves s (read_closed, buf) h armed =
      absent-IsArmed (with_conns s (recycle_buf s.conns buf)) fd
        (recycle-interests s.conns buf fd ∙ armed) (recycle-IsDetached s fd buf h)

alloc_buf-slots : (table : ConnTable) → (alloc_buf table).1.slots ≡ table.slots
unfolding alloc_buf
alloc_buf-slots table = ground arith

alloc_buf-interests : (table : ConnTable) → (alloc_buf table).1.interests ≡ table.interests
unfolding alloc_buf
alloc_buf-interests table = ground arith

module _ (memmem : Bytes → Bytes → Option ℕ) (assume : Bool) (handler : Request → Response) where
  drive_reading-Leaves : (fuel : ℕ) → IsDriver (drive_reading memmem assume handler fuel)
  unfolding drive_reading
  drive_reading-Leaves zero s fd buf used below h = tt
  drive_reading-Leaves (suc fuel) s fd buf used below h = elim (Bool-cases (leb buf_size used)) [
    | inl full ↦
        rw (full, drive_reading)
          (start_write-Leaves _ (drive_reading-Leaves fuel) fd below s buf _ 0 0 false h)
    | inr room ↦
        rw (room, drive_reading)
          (after_process-Leaves _ (drive_reading-Leaves fuel) fd below s buf used
            (process_loop memmem assume handler (suc used) buf used nothing_processed) h)
  ]

  drive-IsDriver : IsDriver (drive memmem assume handler)
  drive-IsDriver s fd buf used = drive_reading-Leaves (suc used) s fd buf used

  readable_state-Leaves :
      (reads : List ReadResult) (s : Server) (fd : ℕ) (state : Option ConnState)
      → fd < max_client_fd
      → s.conns.interests fd ≡ armed_for state
      → IsDetached s fd
      → Leaves (readable_state memmem assume handler reads s fd state)
  unfolding readable_state
  readable_state-Leaves reads s fd none below armed h = absent-IsArmed s fd armed h
  readable_state-Leaves reads s fd (some (reading buf used)) below armed h =
      after_read-Leaves _ drive-IsDriver fd below s used _ h armed
  readable_state-Leaves reads s fd (some (writing buf responses written off len keep)) below armed
        h =
      insert-IsArmed s fd (writing buf responses written off len keep) below armed h

  writable_state-Leaves :
      (s : Server) (fd : ℕ) (state : Option ConnState)
      → fd < max_client_fd
      → s.conns.interests fd ≡ armed_for state
      → IsDetached s fd
      → Leaves (writable_state memmem assume handler s fd state)
  unfolding writable_state
  writable_state-Leaves s fd none below armed h = absent-IsArmed s fd armed h
  writable_state-Leaves s fd (some (reading buf used)) below armed h =
      insert-IsArmed s fd (reading buf used) below armed h
  writable_state-Leaves s fd (some (writing buf responses written off len keep)) below armed h =
      after_writable-Leaves _ drive-IsDriver fd below _
        (finish_write-LeavesArmed fd s buf responses written off len keep below h)

  pub on_readable-Leaves :
      (reads : List ReadResult) (s : Server) (fd : ℕ)
      → fd < max_client_fd
      → IsArmed s
      → Leaves (on_readable memmem assume handler reads s fd)
  unfolding on_readable
  on_readable-Leaves reads s fd below h =
      readable_state-Leaves reads _ fd _ below
        (remove-interests s.conns fd fd
          ∙ h fd below
          ∙ ap armed_for (sym (remove-found s.conns fd below)))
        (remove-IsDetached s fd below h)

  pub on_writable-Leaves :
      (s : Server) (fd : ℕ)
      → fd < max_client_fd
      → IsArmed s
      → Leaves (on_writable memmem assume handler s fd)
  unfolding on_writable
  on_writable-Leaves s fd below h =
      writable_state-Leaves _ fd _ below
        (remove-interests s.conns fd fd
          ∙ h fd below
          ∙ ap armed_for (sym (remove-found s.conns fd below)))
        (remove-IsDetached s fd below h)

  -- A descriptor that is passed in is new: no connection of the table has it.
  pub on_new_client_fd-Leaves :
      (configured : Bool) (reads : List ReadResult) (s : Server) (fd : ℕ)
      → (fd < max_client_fd → s.conns.slots fd ≡ none)
      → IsArmed s
      → Leaves (on_new_client_fd memmem assume handler configured reads s fd)
  unfolding on_new_client_fd
  on_new_client_fd-Leaves configured reads s fd new h =
      elim (Bool-cases (leb max_client_fd fd || not configured)) [
        | inl refused ↦ rw (refused, on_new_client_fd) h
        | inr accepted ↦
            let below : fd < max_client_fd = ground arith in
            let table = (alloc_buf s.conns).1 in
            let detached : IsDetached (with_conns s table) fd = (
              ap (λ f. f fd) (alloc_buf-slots s.conns) ∙ new below,
              λ other l differs.
                  ap (λ f. f other) (alloc_buf-interests s.conns)
                  ∙ h other l
                  ∙ ap (λ f. armed_for (f other)) (sym (alloc_buf-slots s.conns)),
            ) in
            rw (accepted, on_new_client_fd)
              (after_first_read-Leaves _ drive-IsDriver fd below _
                (greedy_read reads (alloc_buf s.conns).0 0) detached
                (ap (λ f. f fd) (alloc_buf-interests s.conns)
                  ∙ h fd below
                  ∙ ap armed_for (new below)))
      ]
