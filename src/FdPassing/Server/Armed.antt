-- ===== src/FdPassing/Server/Armed.antt =====
-- src/fd_passing: every connection in the table is registered for the event it waits for.
use rinha_rust_tree.Prelude.{
  ℕ, ◌<◌, ◌≡◌, ◌≢◌, ◌⊎◌, sym, ap, ◌∙◌, Option, none, some, arith, inl, inr, ◌==◌, Bool-cases,
}
use rinha_rust_tree.Http.Bytes.{Bytes}
use rinha_rust_tree.FdPassing.Conn.{
  Interest, epollin, epollout, ConnState, writing, reading, ConnTable, epoll_interest,
  set_epoll_interest, recycle_buf, recycle_conn_state_buf, insert, remove, max_client_fd,
}
use rinha_rust_tree.FdPassing.Server.{
  Server, with_conns, conn_arm_epoll, shutdown_client, close_conn, drop_state,
}

-- The registration that a connection in this state needs.
abbrev pub armed_for : Option ConnState → Option Interest
armed_for none = none
armed_for (some (reading _ _)) = some epollin
armed_for (some (writing _ _ _ _ _ _)) = some epollout

abbrev pub IsArmedAt : ConnTable → ℕ → Type 0
IsArmedAt table fd = table.interests fd ≡ armed_for (table.slots fd)

abbrev pub IsArmed : Server → Type 0
IsArmed s = (fd : ℕ) → fd < max_client_fd → IsArmedAt s.conns fd

-- One connection is taken out of the table while its handler runs.
abbrev pub IsDetached : Server → ℕ → Type 0
IsDetached s fd =
    (s.conns.slots fd ≡ none)
    × ((other : ℕ) → other < max_client_fd → other ≢ fd → IsArmedAt s.conns other)

conn_arm-slots :
    (s : Server) (fd other : ℕ) (events : Interest)
    → (conn_arm_epoll s fd events).conns.slots other ≡ s.conns.slots other
unfolding conn_arm_epoll epoll_interest set_epoll_interest
conn_arm-slots s fd other events = ground arith

pub conn_arm-same :
    (s : Server) (fd : ℕ) (events : Interest)
    → fd < max_client_fd
    → (conn_arm_epoll s fd events).conns.interests fd ≡ some events
unfolding conn_arm_epoll epoll_interest set_epoll_interest
conn_arm-same s fd events h = ground arith

conn_arm-other :
    (s : Server) (fd other : ℕ) (events : Interest)
    → other ≢ fd
    → (conn_arm_epoll s fd events).conns.interests other ≡ s.conns.interests other
unfolding conn_arm_epoll epoll_interest set_epoll_interest
conn_arm-other s fd other events h = ground arith

shutdown-slots :
    (s : Server) (fd other : ℕ) → (shutdown_client s fd).conns.slots other ≡ s.conns.slots other
unfolding shutdown_client epoll_interest set_epoll_interest
shutdown-slots s fd other = ground arith

shutdown-same :
    (s : Server) (fd : ℕ) → fd < max_client_fd → (shutdown_client s fd).conns.interests fd ≡ none
unfolding shutdown_client epoll_interest set_epoll_interest
shutdown-same s fd h = ground arith

shutdown-other :
    (s : Server) (fd other : ℕ)
    → other ≢ fd
    → (shutdown_client s fd).conns.interests other ≡ s.conns.interests other
unfolding shutdown_client epoll_interest set_epoll_interest
shutdown-other s fd other h = ground arith

Nat-decide : (a b : ℕ) → (a ≡ b) ⊎ (a ≢ b)
Nat-decide a b = elim (Bool-cases (a == b)) [
  | inl same ↦ inl (ground arith)
  | inr differs ↦ inr (ground arith)
]

insert-same :
    (table : ConnTable) (fd : ℕ) (state : ConnState)
    → fd < max_client_fd
    → (insert table fd state).slots fd ≡ some state
unfolding insert
insert-same table fd state h = ground arith

insert-other :
    (table : ConnTable) (fd other : ℕ) (state : ConnState)
    → other ≢ fd
    → (insert table fd state).slots other ≡ table.slots other
unfolding insert
insert-other table fd other state h = ground arith

insert-interests :
    (table : ConnTable) (fd other : ℕ) (state : ConnState)
    → (insert table fd state).interests other ≡ table.interests other
unfolding insert
insert-interests table fd other state = ground arith

recycle-slots :
    (table : ConnTable) (buf : Bytes) (other : ℕ)
    → (recycle_buf table buf).slots other ≡ table.slots other
unfolding recycle_buf
recycle-slots table buf other = ground arith

pub recycle-interests :
    (table : ConnTable) (buf : Bytes) (other : ℕ)
    → (recycle_buf table buf).interests other ≡ table.interests other
unfolding recycle_buf
recycle-interests table buf other = ground arith

pub recycle-IsDetached :
    (s : Server) (fd : ℕ) (buf : Bytes)
    → IsDetached s fd
    → IsDetached (with_conns s (recycle_buf s.conns buf)) fd
recycle-IsDetached s fd buf (empty, others) = (
  recycle-slots s.conns buf fd ∙ empty,
  λ other below differs.
      recycle-interests s.conns buf other
      ∙ others other below differs
      ∙ ap armed_for (sym (recycle-slots s.conns buf other)),
)

pub conn_arm-IsDetached :
    (s : Server) (fd : ℕ) (events : Interest)
    → IsDetached s fd
    → IsDetached (conn_arm_epoll s fd events) fd
conn_arm-IsDetached s fd events (empty, others) = (
  conn_arm-slots s fd fd events ∙ empty,
  λ other below differs.
      conn_arm-other s fd other events differs
      ∙ others other below differs
      ∙ ap armed_for (sym (conn_arm-slots s fd other events)),
)

-- A connection goes back into the table with the registration that its state needs.
pub insert-IsArmed :
    (s : Server) (fd : ℕ) (state : ConnState)
    → fd < max_client_fd
    → s.conns.interests fd ≡ armed_for (some state)
    → IsDetached s fd
    → IsArmed (with_conns s (insert s.conns fd state))
insert-IsArmed s fd state below armed (empty, others) other h = elim (Nat-decide other fd) [
  | inl same ↦ rw same (
      insert-interests s.conns fd fd state
      ∙ armed
      ∙ ap armed_for (sym (insert-same s.conns fd state below)))
  | inr differs ↦
      insert-interests s.conns fd other state
      ∙ others other h differs
      ∙ ap armed_for (sym (insert-other s.conns fd other state differs))
]

pub arm_and_insert-IsArmed :
    (s : Server) (fd : ℕ) (events : Interest) (state : ConnState)
    → fd < max_client_fd
    → some events ≡ armed_for (some state)
    → IsDetached s fd
    → IsArmed (
        with_conns
          (conn_arm_epoll s fd events)
          (insert (conn_arm_epoll s fd events).conns fd state))
arm_and_insert-IsArmed s fd events state below armed detached =
    insert-IsArmed (conn_arm_epoll s fd events) fd state below
      (conn_arm-same s fd events below ∙ armed) (conn_arm-IsDetached s fd events detached)

pub shutdown-IsArmed :
    (s : Server) (fd : ℕ) → fd < max_client_fd → IsDetached s fd → IsArmed (shutdown_client s fd)
shutdown-IsArmed s fd below (empty, others) other h = elim (Nat-decide other fd) [
  | inl same ↦
      rw same (shutdown-same s fd below ∙ ap armed_for (sym (shutdown-slots s fd fd ∙ empty)))
  | inr differs ↦
      shutdown-other s fd other differs
      ∙ others other h differs
      ∙ ap armed_for (sym (shutdown-slots s fd other))
]

pub absent-IsArmed :
    (s : Server) (fd : ℕ) → s.conns.interests fd ≡ none → IsDetached s fd → IsArmed s
absent-IsArmed s fd armed (empty, others) other h = elim (Nat-decide other fd) [
  | inl same ↦ rw same (armed ∙ ap armed_for (sym empty))
  | inr differs ↦ others other h differs
]

remove-same :
    (table : ConnTable) (fd : ℕ) → fd < max_client_fd → (remove table fd).1.slots fd ≡ none
unfolding remove
remove-same table fd h = ground arith

remove-other :
    (table : ConnTable) (fd other : ℕ)
    → other ≢ fd
    → (remove table fd).1.slots other ≡ table.slots other
unfolding remove
remove-other table fd other h = ground arith

pub remove-interests :
    (table : ConnTable) (fd other : ℕ) → (remove table fd).1.interests other ≡ table.interests other
unfolding remove
remove-interests table fd other = ground arith

pub remove-found :
    (table : ConnTable) (fd : ℕ) → fd < max_client_fd → (remove table fd).0 ≡ table.slots fd
unfolding remove
remove-found table fd h = ground arith

-- Taking a connection out.
pub remove-IsDetached :
    (s : Server) (fd : ℕ)
    → fd < max_client_fd
    → IsArmed s
    → IsDetached (with_conns s (remove s.conns fd).1) fd
remove-IsDetached s fd below armed = (
  remove-same s.conns fd below,
  λ other h differs.
      remove-interests s.conns fd other
      ∙ armed other h
      ∙ ap armed_for (sym (remove-other s.conns fd other differs)),
)

recycle_state-IsDetached :
    (s : Server) (fd : ℕ) (state : ConnState)
    → IsDetached s fd
    → IsDetached (with_conns s (recycle_conn_state_buf s.conns state)) fd
unfolding recycle_conn_state_buf
recycle_state-IsDetached s fd (reading buf used) h = recycle-IsDetached s fd buf h
recycle_state-IsDetached s fd (writing buf _ _ _ _ _) h = recycle-IsDetached s fd buf h

drop_state-IsDetached :
    (s : Server) (fd : ℕ) (state : Option ConnState)
    → IsDetached s fd
    → IsDetached (with_conns s (drop_state s.conns state)) fd
drop_state-IsDetached s fd none h = h
drop_state-IsDetached s fd (some state) h = recycle_state-IsDetached s fd state h

-- Closing works on a connection in the table and on one that was taken out.
pub close_conn-IsArmed :
    (s : Server) (fd : ℕ)
    → fd < max_client_fd
    → ((other : ℕ) → other < max_client_fd → other ≢ fd → IsArmedAt s.conns other)
    → IsArmed (close_conn s fd)
unfolding close_conn
close_conn-IsArmed s fd below others = shutdown-IsArmed _ fd below (
    drop_state-IsDetached (with_conns s (remove s.conns fd).1) fd (remove s.conns fd).0 (
      remove-same s.conns fd below,
      λ other h differs.
          remove-interests s.conns fd other
          ∙ others other h differs
          ∙ ap armed_for (sym (remove-other s.conns fd other differs)),
    ))
