-- ===== src/FdPassing/Write/Armed.antt =====
-- src/fd_passing/evented.rs: how a write leaves the registrations.
use rinha_rust_tree.Prelude.{
  ℕ, ◌+◌, ◌<◌, ◌≡◌, Bool, List, [], ◌∷◌, some, inl, inr, ltb, ◌==◌, Bool-cases, length,
}
use rinha_rust_tree.Http.Bytes.{Bytes}
use rinha_rust_tree.FdPassing.Batch.{ResponseBatch, as_slice, total_len}
use rinha_rust_tree.FdPassing.Conn.{writing, epollout, max_client_fd}
use rinha_rust_tree.FdPassing.Server.{WriteResult, wrote, write_again, write_failed, Server}
use rinha_rust_tree.FdPassing.Server.Armed.{
  armed_for, IsArmed, IsDetached, recycle-IsDetached, conn_arm-IsDetached, conn_arm-same,
  shutdown-IsArmed,
}
use rinha_rust_tree.FdPassing.Write.{
  WriteOutcome, done_reading, wait, closed, Pending, all_written, give_up, blocked, is_nil,
  build_iovecs, max_iovecs, accepted, write_loop, finish_write,
}

-- The connection is still out of the table, or it is closed and everything is registered.
abbrev pub LeavesArmed : ℕ → WriteOutcome × Server → Type 0
LeavesArmed fd (done_reading buf used, s) = IsDetached s fd
LeavesArmed fd (wait state, s) = IsDetached s fd × (s.conns.interests fd ≡ armed_for (some state))
LeavesArmed fd (closed, s) = IsArmed s

module _ (fd : ℕ) (below : fd < max_client_fd) (p : Pending) where
  give_up-LeavesArmed : (s : Server) → IsDetached s fd → LeavesArmed fd (give_up s fd p)
  give_up-LeavesArmed s h = shutdown-IsArmed _ fd below (recycle-IsDetached s fd p.buf h)

  blocked-LeavesArmed :
      (s : Server) (written : ℕ) → IsDetached s fd → LeavesArmed fd (blocked s fd p written)
  blocked-LeavesArmed s written h =
      (conn_arm-IsDetached s fd epollout h, conn_arm-same s fd epollout below)

  all_written-LeavesArmed : (s : Server) → IsDetached s fd → LeavesArmed fd (all_written s fd p)
  unfolding all_written
  all_written-LeavesArmed s h = elim (Bool-cases (ltb 0 p.leftover_len)) [
    | inl left ↦ rw (left, all_written) h
    | inr none_left ↦ elim (Bool-cases p.keep_alive) [
      | inl keep ↦ rw (none_left, keep, all_written) h
      | inr close ↦ rw (none_left, close, all_written) (give_up-LeavesArmed s h)
    ]
  ]

  write_loop-LeavesArmed :
      (writes : List WriteResult) (s : Server) (written : ℕ)
      → IsDetached s fd
      → LeavesArmed fd (write_loop writes s fd p written)
  unfolding write_loop
  write_loop-LeavesArmed [] s written h =
      elim (Bool-cases (is_nil (build_iovecs (as_slice p.responses) written max_iovecs))) [
        | inl done ↦ rw (done, write_loop) (all_written-LeavesArmed _ h)
        | inr more ↦ rw (more, write_loop) (blocked-LeavesArmed _ written h)
      ]
  write_loop-LeavesArmed (wrote n ∷ writes) s written h =
      elim (Bool-cases (is_nil (build_iovecs (as_slice p.responses) written max_iovecs))) [
        | inl done ↦ rw (done, write_loop) (all_written-LeavesArmed _ h)
        | inr more ↦
            elim (Bool-cases (
              written + length (accepted n (build_iovecs (as_slice p.responses) written max_iovecs))
              == total_len p.responses)) [
                | inl whole ↦ rw (more, whole, write_loop) (all_written-LeavesArmed _ h)
                | inr part ↦ rw (more, part, write_loop) (write_loop-LeavesArmed writes _ _ h)
              ]
      ]
  write_loop-LeavesArmed (write_again ∷ writes) s written h =
      elim (Bool-cases (is_nil (build_iovecs (as_slice p.responses) written max_iovecs))) [
        | inl done ↦ rw (done, write_loop) (all_written-LeavesArmed _ h)
        | inr more ↦ rw (more, write_loop) (blocked-LeavesArmed _ written h)
      ]
  write_loop-LeavesArmed (write_failed ∷ writes) s written h =
      elim (Bool-cases (is_nil (build_iovecs (as_slice p.responses) written max_iovecs))) [
        | inl done ↦ rw (done, write_loop) (all_written-LeavesArmed _ h)
        | inr more ↦ rw (more, write_loop) (give_up-LeavesArmed _ h)
      ]

pub finish_write-LeavesArmed :
    (fd : ℕ) (s : Server) (buf : Bytes) (responses : ResponseBatch) (written off len : ℕ)
    (keep : Bool)
    → fd < max_client_fd
    → IsDetached s fd
    → LeavesArmed fd (finish_write s fd (writing buf responses written off len keep))
unfolding finish_write
finish_write-LeavesArmed fd s buf responses written off len keep below h =
    write_loop-LeavesArmed fd below _ s.writes s written h
