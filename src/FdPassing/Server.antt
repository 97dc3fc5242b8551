-- ===== src/FdPassing/Server.antt =====
-- src/fd_passing/evented.rs, src/fd_passing/epoll.rs: what the handlers share: the table, the
-- registrations, and the results of the `writev` calls to come.
-- The system calls are a script of results and a log, newest first. When the script is used up,
-- `writev` would block.
pub mod Armed
use rinha_rust_tree.Prelude.{
  ℕ, zero, suc, ◌+◌, ◌-◌, Bool, true, false, List, [], ◌∷◌, ◌++◌, Option, none, some, ltb, leb,
  ◌==◌, if◌then◌else◌, length, take, drop, min,
}
use rinha_rust_tree.Http.Bytes.{Bytes, slice}
use rinha_rust_tree.FdPassing.Batch.{ResponseBatch, as_slice, total_len}
use rinha_rust_tree.FdPassing.Conn.{
  Interest, epollin, epollout, ConnState, writing, reading, ConnTable, epoll_interest,
  set_epoll_interest, recycle_buf, recycle_conn_state_buf, insert, remove,
}

pub data WriteResult : Type 0 where
  wrote : ℕ → WriteResult
  write_again write_failed : WriteResult

pub data Effect : Type 0 where
  epoll_add epoll_mod : ℕ → Interest → Effect
  epoll_del close_fd : ℕ → Effect
  sent : ℕ → Bytes → Effect

pub record Server : Type 0 where
  pub conns : ConnTable
  pub writes : List WriteResult
  pub log : List Effect

abbrev pub emit : Server → Effect → Server
emit s e = record s { log = e ∷ s.log }

abbrev pub with_conns : Server → ConnTable → Server
with_conns s conns = record s { conns = conns }

abbrev same_interest : Interest → Interest → Bool
same_interest epollin epollin = true
same_interest epollout epollout = true
same_interest _ _ = false

unfoldable pub conn_arm_epoll : Server → ℕ → Interest → Server
unfolding epoll_interest set_epoll_interest
conn_arm_epoll s fd events = elim (epoll_interest s.conns fd) [
  | none ↦ emit (with_conns s (set_epoll_interest s.conns fd (some events))) (epoll_add fd events)
  | some armed ↦
      if same_interest armed events
      then s
      else emit (with_conns s (set_epoll_interest s.conns fd (some events))) (epoll_mod fd events)
]

unfoldable pub shutdown_client : Server → ℕ → Server
unfolding epoll_interest set_epoll_interest
shutdown_client s fd = elim (epoll_interest s.conns fd) [
  | none ↦ emit s (close_fd fd)
  | some armed ↦
      emit (emit (with_conns s (set_epoll_interest s.conns fd none)) (epoll_del fd)) (close_fd fd)
]

abbrev pub drop_state : ConnTable → Option ConnState → ConnTable
drop_state conns none = conns
drop_state conns (some state) = recycle_conn_state_buf conns state

unfoldable pub close_conn : Server → ℕ → Server
unfolding recycle_conn_state_buf remove shutdown_client
close_conn s fd =
    let (state, conns) = remove s.conns fd in
    shutdown_client (with_conns s (drop_state conns state)) fd
