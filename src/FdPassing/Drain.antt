-- ===== src/FdPassing/Drain.antt =====
-- src/fd_passing/evented.rs: an event of the load balancer's connection. What `recv_fd_nb` returns
-- is a script, whose end stands for a call that would block; the closed control connections are a
-- log. That epoll forgets the control connection is left out.
use rinha_rust_tree.Prelude.{
  ℕ, zero, suc, ◌<◌, ◌≡◌, ◌≢◌, refl, Bool, true, false, ◌||◌, List, [], ◌∷◌, Option, none, some,
  if◌then◌else◌, ◌++◌, All,
}
use rinha_rust_tree.Http.Bytes.{Bytes, IsMemmem}
use rinha_rust_tree.Http.Responses.{Response}
use rinha_rust_tree.Http.Parser.{Request}
use rinha_rust_tree.FdPassing.Conn.{max_client_fd}
use rinha_rust_tree.FdPassing.Server.{Server}
use rinha_rust_tree.FdPassing.Server.Armed.{IsArmed}
use rinha_rust_tree.FdPassing.Control.{held}
use rinha_rust_tree.FdPassing.Evented.{
  Drive, ran, aborted, out_of_fuel, ReadResult, on_new_client_fd,
}
use rinha_rust_tree.FdPassing.Evented.Armed.{Leaves, on_new_client_fd-Leaves}
use rinha_rust_tree.FdPassing.Evented.Fuel.{on_new_client_fd-ends}

-- `received`: with what `on_new_client_fd` asks about the descriptor and reads from it.
pub data RecvFdResult : Type 0 where
  received : Bool → List ReadResult → ℕ → RecvFdResult
  would_block : RecvFdResult
  recv_closed : RecvFdResult

pub data LoopResult (A : Type 0) : Type 0 where
  done : A → LoopResult A
  abort : LoopResult A
  no_fuel : LoopResult A

unfoldable pub after_client : {A : Type 0} → Drive → (Server → LoopResult A) → LoopResult A
after_client (ran s) next = next s
after_client aborted next = abort
after_client out_of_fuel next = no_fuel

-- `control` of the event loop, the tables, and the control connections that are closed
pub record Loop : Type 0 where
  pub server : Server
  pub control : Option ℕ
  pub closed : List ℕ

-- `control.take()`, and the closing of what was taken
unfoldable pub take_control : Loop → Loop
take_control st = record {
  server = st.server;
  control = none;
  closed = elim st.control [ some fd ↦ fd ∷ st.closed | none ↦ st.closed ];
}

-- `hung_up`: epoll reports a hang-up or an error of the control connection.
unfoldable pub end_control : Bool → Loop → LoopResult (Server × Bool) → LoopResult Loop
unfolding take_control
end_control hung_up st (done (s, control_closed)) =
    let st' : Loop = record { server = s; control = st.control; closed = st.closed } in
    done (if control_closed || hung_up then take_control st' else st')
end_control hung_up st abort = abort
end_control hung_up st no_fuel = no_fuel

module _ (memmem : Bytes → Bytes → Option ℕ) (assume_keep_alive : Bool)
    (handler : Request → Response) where
  unfoldable pub drain_fds : ℕ → List RecvFdResult → Server → LoopResult (Server × Bool)
  unfolding on_new_client_fd after_client
  drain_fds zero recvs s = done (s, false)
  drain_fds (suc budget) [] s = done (s, false)
  drain_fds (suc budget) (received configured reads fd ∷ recvs) s =
      after_client (on_new_client_fd memmem assume_keep_alive handler configured reads s fd)
        (λ s'. drain_fds budget recvs s')
  drain_fds (suc budget) (would_block ∷ recvs) s = done (s, false)
  drain_fds (suc budget) (recv_closed ∷ recvs) s = done (s, true)

  unfoldable pub drain_control :
      Bool → Option ℕ → ℕ → List RecvFdResult → Server → LoopResult (Server × Bool)
  unfolding drain_fds
  drain_control true (some fd) budget recvs s = drain_fds budget recvs s
  drain_control true none budget recvs s = done (s, false)
  drain_control false control budget recvs s = done (s, false)

  unfoldable pub on_control : Bool → Bool → ℕ → List RecvFdResult → Loop → LoopResult Loop
  unfolding drain_control end_control
  on_control input hung_up budget recvs st =
      end_control hung_up st (drain_control input st.control budget recvs st.server)

  -- Each descriptor that is received is none that the table holds at that time.
  unfoldable pub AreNew : ℕ → List RecvFdResult → Server → Type 0
  AreNew zero recvs s = Unit
  AreNew (suc budget) [] s = Unit
  AreNew (suc budget) (received configured reads fd ∷ recvs) s =
      (fd < max_client_fd → s.conns.slots fd ≡ none)
      × ((s' : Server)
          → on_new_client_fd memmem assume_keep_alive handler configured reads s fd ≡ ran s'
          → AreNew budget recvs s')
  AreNew (suc budget) (would_block ∷ recvs) s = Unit
  AreNew (suc budget) (recv_closed ∷ recvs) s = Unit

-- The load balancer's side is open as far as these results go.
abbrev pub AllOpen : List RecvFdResult → Type 0
AllOpen recvs = All (λ r. r ≢ recv_closed) recvs

-- What draining leaves: the tables, and whether the control connection has ended.
record Drained (recvs : List RecvFdResult) (r : Server × Bool) : Type 0 where
  armed : IsArmed r.0
  open_still : AllOpen recvs → r.1 ≡ false

-- There was enough fuel, and what is done meets the predicate.
pub data Ends {A : Type 0} (P : A → Type 0) : LoopResult A → Type 0 where
  ended : (a : A) → P a → Ends P (done a)
  gave_up : Ends P abort

-- One result more, of an open connection.
further :
    {r : RecvFdResult} {recvs : List RecvFdResult} {o : LoopResult (Server × Bool)}
    → Ends (Drained recvs) o
    → Ends (Drained (r ∷ recvs)) o
further (Ends.ended a h) = ended a (record { armed = h.armed; open_still = λ o. h.open_still o.1 })
further Ends.gave_up = gave_up

module _ {memmem : Bytes → Bytes → Option ℕ} (m : IsMemmem memmem) (assume : Bool)
    (handler : Request → Response) where
  after_client-Ends :
      {A : Type 0} {P : A → Type 0} (d : Drive) (next : Server → LoopResult A)
      → d ≢ out_of_fuel
      → Leaves d
      → ((s : Server) → d ≡ ran s → IsArmed s → Ends P (next s))
      → Ends P (after_client d next)
  unfolding after_client
  after_client-Ends (ran s) next fuel armed h = h s refl armed
  after_client-Ends aborted next fuel armed h = gave_up
  after_client-Ends out_of_fuel next fuel armed h = absurd (fuel refl)

  drain_fds-Ends :
      (budget : ℕ) (recvs : List RecvFdResult) (s : Server)
      → IsArmed s
      → AreNew memmem assume handler budget recvs s
      → Ends (Drained recvs) (drain_fds memmem assume handler budget recvs s)
  unfolding drain_fds AreNew
  drain_fds-Ends zero recvs s h new = ended _ (record { armed = h; open_still = λ o. refl })
  drain_fds-Ends (suc budget) [] s h new = ended _ (record { armed = h; open_still = λ o. refl })
  drain_fds-Ends (suc budget) (received configured reads fd ∷ recvs) s h new =
      after_client-Ends _ _ (on_new_client_fd-ends m assume handler configured reads s fd)
        (on_new_client_fd-Leaves memmem assume handler configured reads s fd new.0 h)
        (λ s' e armed. further (drain_fds-Ends budget recvs s' armed (new.1 s' e)))
  drain_fds-Ends (suc budget) (would_block ∷ recvs) s h new =
      ended _ (record { armed = h; open_still = λ o. refl })
  drain_fds-Ends (suc budget) (recv_closed ∷ recvs) s h new =
      ended _ (record { armed = h; open_still = λ o. absurd (o.0 refl) })

-- The connections are registered for what they wait for. The control connection is held, or it is
-- the last that was closed; it is closed after a hang-up, and kept without one while it is open.
pub record IsServed (hung_up : Bool) (recvs : List RecvFdResult) (before after : Loop)
    : Type 0 where
  pub armed : IsArmed after.server
  pub kept : held after.control ++ after.closed ≡ held before.control ++ before.closed
  pub ended : hung_up ≡ true → after.control ≡ none
  pub stays : hung_up ≡ false → AllOpen recvs → after.control ≡ before.control

taken-held :
    (control : Option ℕ) (closed : List ℕ)
    → elim control as (λ c. List ℕ) [ some fd ↦ fd ∷ closed | none ↦ closed ]
      ≡ held control ++ closed
taken-held (some fd) closed = refl
taken-held none closed = refl

take_control-IsServed :
    (hung_up : Bool) (recvs : List RecvFdResult) (st : Loop) (s : Server)
    → IsArmed s
    → (hung_up ≡ false → AllOpen recvs → ⊥)
    → IsServed hung_up recvs st
        (take_control (record { server = s; control = st.control; closed = st.closed }))
unfolding take_control
take_control-IsServed hung_up recvs st s h over = record {
  armed = h;
  kept = taken-held st.control st.closed;
  ended = λ e. refl;
  stays = λ e o. absurd (over e o);
}

end_control-Ends :
    (hung_up : Bool) (recvs : List RecvFdResult) (st : Loop) (o : LoopResult (Server × Bool))
    → Ends (Drained recvs) o
    → Ends (IsServed hung_up recvs st) (end_control hung_up st o)
unfolding end_control
end_control-Ends true recvs st (done (s, true)) (Ends.ended a h) =
    ended _ (take_control-IsServed true recvs st s h.armed (λ e o. cc))
end_control-Ends false recvs st (done (s, true)) (Ends.ended a h) =
    ended _
      (take_control-IsServed false recvs st s h.armed (λ e o. let over = h.open_still o in cc))
end_control-Ends true recvs st (done (s, false)) (Ends.ended a h) =
    ended _ (take_control-IsServed true recvs st s h.armed (λ e o. cc))
end_control-Ends false recvs st (done (s, false)) (Ends.ended a h) =
    ended _ (record { armed = h.armed; kept = refl; ended = λ e. absurd (cc); stays = λ e o. refl })
end_control-Ends hung_up recvs st abort h = gave_up
end_control-Ends hung_up recvs st no_fuel h = elim h [ ]

module _ {memmem : Bytes → Bytes → Option ℕ} (m : IsMemmem memmem) (assume : Bool)
    (handler : Request → Response) where
  drain_control-Ends :
      (input : Bool) (control : Option ℕ) (budget : ℕ) (recvs : List RecvFdResult) (s : Server)
      → IsArmed s
      → AreNew memmem assume handler budget recvs s
      → Ends (Drained recvs) (drain_control memmem assume handler input control budget recvs s)
  unfolding drain_control
  drain_control-Ends true (some fd) budget recvs s h new =
      drain_fds-Ends m assume handler budget recvs s h new
  drain_control-Ends true none budget recvs s h new =
      ended _ (record { armed = h; open_still = λ o. refl })
  drain_control-Ends false control budget recvs s h new =
      ended _ (record { armed = h; open_still = λ o. refl })

  -- An event of the control connection, its descriptors being none that the table holds, is handled
  -- within the fuel. Unless the process aborts, every connection is registered for what it waits
  -- for, and the control connection is held or is the one that was closed; it is closed after a
  -- hang-up, and kept where there is none and no result is a closed connection.
  pub on_control-IsServed :
      (input hung_up : Bool) (budget : ℕ) (recvs : List RecvFdResult) (st : Loop)
      → IsArmed st.server
      → AreNew memmem assume handler budget recvs st.server
      → Ends
          (IsServed hung_up recvs st)
          (on_control memmem assume handler input hung_up budget recvs st)
  unfolding on_control
  on_control-IsServed input hung_up budget recvs st h new =
      end_control-Ends hung_up recvs st _
        (drain_control-Ends input st.control budget recvs st.server h new)
