-- ===== src/FdPassing/Events.antt =====
-- src/fd_passing/evented.rs: the client events of the loop of `run_fd_evented_server_with_hook`,
-- and the tables that a sequence of them can reach.
pub mod Armed
use rinha_rust_tree.Prelude.{
  ℕ, ◌<◌, ◌≡◌, Bool, true, false, List, [], Option, none, some, if◌then◌else◌,
}
use rinha_rust_tree.Http.Bytes.{Bytes}
use rinha_rust_tree.Http.Responses.{Response}
use rinha_rust_tree.Http.Parser.{Request}
use rinha_rust_tree.FdPassing.Conn.{ConnTable, max_client_fd, new}
use rinha_rust_tree.FdPassing.Server.{Server, WriteResult, close_conn}
use rinha_rust_tree.FdPassing.Evented.{
  Drive, ran, aborted, out_of_fuel, ReadResult, on_new_client_fd, on_readable, on_writable,
}

-- `passed`: a descriptor from the control socket. `ready`: what epoll reports of a client: an
-- error or a hang-up, input, output.
pub data Event : Type 0 where
  passed : Bool → List ReadResult → ℕ → Event
  ready : Bool → Bool → Bool → List ReadResult → ℕ → Event

unfoldable pub and_then : Drive → (Server → Drive) → Drive
and_then (ran s) next = next s
and_then aborted next = aborted
and_then out_of_fuel next = out_of_fuel

abbrev pub with_writes : Server → List WriteResult → Server
with_writes s writes = record s { writes = writes }

module _ (memmem : Bytes → Bytes → Option ℕ) (assume_keep_alive : Bool)
    (handler : Request → Response) where
  unfoldable pub on_ready : Bool → Bool → Bool → List ReadResult → Server → ℕ → Drive
  unfolding close_conn on_readable on_writable and_then
  on_ready hung_up input output reads s fd =
      if hung_up
      then ran (close_conn s fd)
      else and_then
          (if input then on_readable memmem assume_keep_alive handler reads s fd else ran s)
          (λ after.
            if output then on_writable memmem assume_keep_alive handler after fd else ran after)

  unfoldable pub handle : Event → Server → Drive
  unfolding on_new_client_fd on_ready
  handle (passed configured reads fd) s =
      on_new_client_fd memmem assume_keep_alive handler configured reads s fd
  handle (ready hung_up input output reads fd) s = on_ready hung_up input output reads s fd

  -- A passed descriptor is none that the table holds, and epoll reports registered ones only.
  abbrev pub IsPossible : Server → Event → Type 0
  IsPossible s (passed configured reads fd) = fd < max_client_fd → s.conns.slots fd ≡ none
  IsPossible s (ready hung_up input output reads fd) = fd < max_client_fd

  -- The states that the loop can reach, whatever `writev` answers.
  pub data Reaches (pool : ℕ) : Server → Type 0 where
    start :
        (writes : List WriteResult)
        → Reaches pool (record { conns = new pool; writes = writes; log = [] })
    step :
        (s after : Server) (event : Event) (writes : List WriteResult)
        → Reaches pool s
        → IsPossible s event
        → handle event s ≡ ran after
        → Reaches pool (with_writes after writes)
