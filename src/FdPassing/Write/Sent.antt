-- ===== src/FdPassing/Write/Sent.antt =====
-- src/fd_passing/evented.rs: a batch is sent once, in order, over however many writes it takes.
use rinha_rust_tree.Prelude.{
  ℕ, suc, ◌+◌, ◌≤◌, ◌<◌, ◌≡◌, refl, sym, ap, ◌∙◌, List, [], ◌∷◌, ◌++◌, arith, inl, inr, ltb, ◌==◌,
  Bool-cases, ==→≡, true, false, if◌then◌else◌, ◌⊎◌, ltb-false, length, take, drop, length-take,
  length-drop,
}
use rinha_rust_tree.Http.Bytes.{Bytes}
use rinha_rust_tree.FdPassing.Batch.{as_slice, total_len}
use rinha_rust_tree.FdPassing.Conn.{Interest, writing, epollout, recycle_buf}
use rinha_rust_tree.FdPassing.Server.{
  Effect, sent, WriteResult, wrote, write_again, write_failed, Server, emit, with_conns,
  conn_arm_epoll, shutdown_client,
}
use rinha_rust_tree.FdPassing.Write.{
  WriteOutcome, done_reading, wait, closed, Pending, all_written, give_up, blocked, is_nil,
  build_iovecs, max_iovecs, accepted, write_loop, finish_write, concat, copy_within,
}
use rinha_rust_tree.FdPassing.Write.Iovecs.{
  total-concat, append_assoc, build_iovecs-prefix, build_iovecs-nil, build_iovecs-cons, take-take,
  take-add, take_all,
}

-- Everything that was sent to a client, in order; the log is newest first.
unfoldable pub stream : ℕ → List Effect → Bytes
stream fd [] = []
stream fd (sent other bytes ∷ log) =
    let before = stream fd log in if other == fd then before ++ bytes else before
stream fd (_ ∷ log) = stream fd log

-- `Took script rest`: of the results of `writev`, those before `rest` are of writes that took bytes.
pub data Took (script : List WriteResult) : List WriteResult → Type 0 where
  start : Took script script
  next : (n : ℕ) (rest : List WriteResult) → Took script (wrote n ∷ rest) → Took script rest

shutdown-stream :
    (s : Server) (fd : ℕ)
    → (stream fd (shutdown_client s fd).log ≡ stream fd s.log)
      × ((shutdown_client s fd).writes ≡ s.writes)
unfolding stream shutdown_client
shutdown-stream s fd = ground arith

conn_arm-stream :
    (s : Server) (fd : ℕ) (events : Interest)
    → (stream fd (conn_arm_epoll s fd events).log ≡ stream fd s.log)
      × ((conn_arm_epoll s fd events).writes ≡ s.writes)
unfolding stream conn_arm_epoll
conn_arm-stream s fd events = ground arith

module _ (base : Bytes) (script : List WriteResult) (fd : ℕ) (p : Pending) where
  abbrev all : Bytes
  all = concat (as_slice p.responses)

  abbrev SentUpTo : Server → ℕ → Type 0
  SentUpTo s written =
      (written ≤ total_len p.responses) × (stream fd s.log ≡ base ++ take written all)

  -- Where the connection reads again, the input behind the requests that were answered.
  abbrev left_over : Bytes
  left_over =
      if ltb 0 p.leftover_len then copy_within p.buf p.leftover_off p.leftover_len else p.buf

  -- What was sent when a write ends: all of the batch before the connection reads again, and
  -- before it is closed unless `writev` failed; and the bytes up to the position that is kept,
  -- where `writev` would block.
  abbrev pub Sends : WriteOutcome × Server → Type 0
  Sends (done_reading buf used, s) =
      (used ≡ p.leftover_len)
      × (buf ≡ left_over)
      × ((p.keep_alive ≡ true) ⊎ (0 < p.leftover_len))
      × Took script s.writes
      × (stream fd s.log ≡ base ++ all)
  Sends (wait state, s) =
      (written : ℕ) × (state
        ≡ writing p.buf p.responses written p.leftover_off p.leftover_len p.keep_alive)
      × (written < total_len p.responses)
      × SentUpTo s written
      × ((Took script [] × (s.writes ≡ [])) ⊎ Took script (write_again ∷ s.writes))
  Sends (closed, s) =
      ((p.keep_alive ≡ false)
        × (p.leftover_len ≡ 0)
        × Took script s.writes
        × (stream fd s.log ≡ base ++ all))
      ⊎ (Took script (write_failed ∷ s.writes) × ((written : ℕ) × SentUpTo s written))

  all-length : total_len p.responses ≡ length all
  unfolding total_len
  all-length = total-concat (as_slice p.responses)

  all_sent :
      (s : Server) (written : ℕ)
      → total_len p.responses ≤ written
      → SentUpTo s written
      → stream fd s.log ≡ base ++ all
  all_sent s written h (le, e) =
      e ∙ ap (λ more. base ++ more) (take_all written all (omega (arith, all-length)))

  -- A failed write closes the connection.
  failed-Sends :
      (s : Server) (written : ℕ)
      → Took script (write_failed ∷ s.writes)
      → SentUpTo s written
      → Sends (give_up s fd p)
  failed-Sends s written t h =
      let (log, writes) = shutdown-stream (with_conns s (recycle_buf s.conns p.buf)) fd in
      inr (rw writes t, (written, (h.0, log ∙ h.1)))

  all_written-Sends :
      (s : Server) (written : ℕ)
      → total_len p.responses ≤ written
      → Took script s.writes
      → SentUpTo s written
      → Sends (all_written s fd p)
  unfolding all_written copy_within
  all_written-Sends s written whole t h = elim (Bool-cases (ltb 0 p.leftover_len)) [
    | inl left ↦
        let kept : copy_within p.buf p.leftover_off p.leftover_len ≡ left_over = rw left refl in
        rw (left, all_written) (refl, kept, inr (ground arith), t, all_sent s written whole h)
    | inr none_left ↦ elim (Bool-cases p.keep_alive) [
      | inl keep ↦
          let kept : p.buf ≡ left_over = rw none_left refl in
          rw (none_left, keep, all_written)
            (
              omega (arith, ltb-false 0 p.leftover_len none_left),
              kept,
              inl refl,
              t,
              all_sent s written whole h,
            )
      | inr close ↦
          let (log, writes) = shutdown-stream (with_conns s (recycle_buf s.conns p.buf)) fd in
          rw (none_left, close, all_written)
            (inl (
              refl,
              omega (arith, ltb-false 0 p.leftover_len none_left),
              rw writes t,
              log ∙ all_sent s written whole h,
            ))
    ]
  ]

  blocked-Sends :
      (s : Server) (written : ℕ)
      → written < total_len p.responses
      → (Took script [] × (s.writes ≡ [])) ⊎ Took script (write_again ∷ s.writes)
      → SentUpTo s written
      → Sends (blocked s fd p written)
  blocked-Sends s written more t h =
      let (log, writes) = conn_arm-stream s fd epollout in
      (written, refl, more, (h.0, log ∙ h.1), rw writes t)

  -- One `writev` moves the position by what it took.
  accepted-SentUpTo :
      (s : Server) (writes : List WriteResult) (written n : ℕ)
      → SentUpTo s written
      → SentUpTo
          (emit
            (record s { writes = writes })
            (sent fd (accepted n (build_iovecs (as_slice p.responses) written max_iovecs))))
          (written + length (accepted n (build_iovecs (as_slice p.responses) written max_iovecs)))
  unfolding stream
  accepted-SentUpTo s writes written n (le, e) =
      let same_fd : (fd == fd) ≡ true = ground arith in
      let iovs = build_iovecs (as_slice p.responses) written max_iovecs in
      let bytes = accepted n iovs in
      let (rest, whole) = build_iovecs-prefix (as_slice p.responses) written max_iovecs in
      let front : take (length bytes) (drop written all) ≡ bytes =
        ap (take (length bytes)) (sym whole) ∙ take-take (suc n) (concat iovs) rest in
      (
        omega (
          arith,
          all-length,
          ap length front,
          length-take (length bytes) (drop written all),
          length-drop written all,
        ),
        rw same_fd (
            ap (◌++ bytes) e
            ∙ append_assoc base (take written all) bytes
            ∙ ap (λ more. base ++ (take written all ++ more)) (sym front)
            ∙ ap (λ more. base ++ more) (take-add written (length bytes) all)),
      )

  abbrev iovs_from : ℕ → List Bytes
  iovs_from written = build_iovecs (as_slice p.responses) written max_iovecs

  -- Without a slice to send, all is sent.
  none_left-Sends :
      (s : Server) (written : ℕ)
      → is_nil (iovs_from written) ≡ true
      → Took script s.writes
      → SentUpTo s written
      → Sends (all_written s fd p)
  unfolding total_len
  none_left-Sends s written done t h =
      all_written-Sends s written (build_iovecs-nil (as_slice p.responses) written 31 done) t h

  write_loop-Sends :
      (writes : List WriteResult) (s : Server) (written : ℕ)
      → Took script writes
      → SentUpTo s written
      → Sends (write_loop writes s fd p written)
  unfolding write_loop
  write_loop-Sends [] s written t h = elim (Bool-cases (is_nil (iovs_from written))) [
    | inl done ↦ rw (done, write_loop) (none_left-Sends _ written done t h)
    | inr more ↦
        rw (more, write_loop)
          (blocked-Sends _ written
            (build_iovecs-cons (as_slice p.responses) written max_iovecs more) (inl (t, refl)) h)
  ]
  write_loop-Sends (wrote n ∷ writes) s written t h =
      elim (Bool-cases (is_nil (iovs_from written))) [
        | inl done ↦ rw (done, write_loop) (none_left-Sends _ written done t h)
        | inr more ↦
            let now = written + length (accepted n (iovs_from written)) in
            let sent_now = accepted-SentUpTo s writes written n h in
            elim (Bool-cases (now == total_len p.responses)) [
              | inl whole ↦
                  rw (more, whole, write_loop)
                    (all_written-Sends _ _ (omega (arith, ==→≡ now (total_len p.responses) whole))
                      (next n writes t) sent_now)
              | inr part ↦
                  rw (more, part, write_loop)
                    (write_loop-Sends writes _ _ (next n writes t) sent_now)
            ]
      ]
  write_loop-Sends (write_again ∷ writes) s written t h =
      elim (Bool-cases (is_nil (iovs_from written))) [
        | inl done ↦ rw (done, write_loop) (none_left-Sends _ written done t h)
        | inr more ↦
            rw (more, write_loop)
              (blocked-Sends _ written
                (build_iovecs-cons (as_slice p.responses) written max_iovecs more) (inr t) h)
      ]
  write_loop-Sends (write_failed ∷ writes) s written t h =
      elim (Bool-cases (is_nil (iovs_from written))) [
        | inl done ↦ rw (done, write_loop) (none_left-Sends _ written done t h)
        | inr more ↦ rw (more, write_loop) (failed-Sends _ written t h)
      ]

-- A write that starts at `written` sends the rest of the batch to the client, in order and each byte
-- once. All of it is sent before the connection reads again, with the input that is left over, and
-- before it is closed for want of keep-alive; where `writev` would block, the position that is
-- reached is kept; the batch is cut short only by a failed `writev`.
pub finish_write-Sends :
    (s : Server) (fd : ℕ) (p : Pending) (written : ℕ) (base : Bytes)
    → written ≤ total_len p.responses
    → stream fd s.log ≡ base ++ take written (concat (as_slice p.responses))
    → Sends base s.writes fd p (
        finish_write s fd
          (writing p.buf p.responses written p.leftover_off p.leftover_len p.keep_alive))
unfolding finish_write
finish_write-Sends s fd p written base h e =
    write_loop-Sends base s.writes fd p s.writes s written start (h, e)
