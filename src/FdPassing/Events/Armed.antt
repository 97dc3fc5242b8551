-- ===== src/FdPassing/Events/Armed.antt =====
-- src/fd_passing/evented.rs: no event loses a connection.
use rinha_rust_tree.Prelude.{ℕ, ◌<◌, ◌≢◌, refl, Bool, true, false, List, Option, if◌then◌else◌}
use rinha_rust_tree.Http.Bytes.{Bytes, IsMemmem}
use rinha_rust_tree.Http.Responses.{Response}
use rinha_rust_tree.Http.Parser.{Request}
use rinha_rust_tree.FdPassing.Conn.{max_client_fd, new}
use rinha_rust_tree.FdPassing.Server.{Server}
use rinha_rust_tree.FdPassing.Server.Armed.{IsArmed, close_conn-IsArmed}
use rinha_rust_tree.FdPassing.Evented.{
  Drive, ran, aborted, out_of_fuel, ReadResult, on_readable, on_writable,
}
use rinha_rust_tree.FdPassing.Evented.Armed.{
  Leaves, on_readable-Leaves, on_writable-Leaves, on_new_client_fd-Leaves,
}
use rinha_rust_tree.FdPassing.Evented.Fuel.{
  on_readable-ends, on_writable-ends, on_new_client_fd-ends,
}
use rinha_rust_tree.FdPassing.Events.{
  Event, passed, ready, and_then, on_ready, handle, IsPossible, Reaches, start, step,
}

abbrev Fine : Drive → Type 0
Fine d = (d ≢ out_of_fuel) × Leaves d

and_then-Fine :
    (d : Drive) (next : Server → Drive)
    → Fine d
    → ((s : Server) → IsArmed s → Fine (next s))
    → Fine (and_then d next)
unfolding and_then
and_then-Fine (ran s) next (ends, armed) h = h s armed
and_then-Fine aborted next d h = d
and_then-Fine out_of_fuel next d h = d

ran-Fine : (s : Server) → IsArmed s → Fine (ran s)
ran-Fine s h = (λ e. cc, h)

module _ {memmem : Bytes → Bytes → Option ℕ} (m : IsMemmem memmem) (assume : Bool)
    (handler : Request → Response) where
  input_part :
      (input : Bool) (reads : List ReadResult) (s : Server) (fd : ℕ)
      → fd < max_client_fd
      → IsArmed s
      → Fine (if input then on_readable memmem assume handler reads s fd else ran s)
  input_part true reads s fd below h = (
    on_readable-ends m assume handler reads s fd,
    on_readable-Leaves memmem assume handler reads s fd below h,
  )
  input_part false reads s fd below h = ran-Fine s h

  output_part :
      (output : Bool) (s : Server) (fd : ℕ)
      → fd < max_client_fd
      → IsArmed s
      → Fine (if output then on_writable memmem assume handler s fd else ran s)
  output_part true s fd below h = (
    on_writable-ends m assume handler s fd,
    on_writable-Leaves memmem assume handler s fd below h,
  )
  output_part false s fd below h = ran-Fine s h

  on_ready-Fine :
      (hung_up input output : Bool) (reads : List ReadResult) (s : Server) (fd : ℕ)
      → fd < max_client_fd
      → IsArmed s
      → Fine (on_ready memmem assume handler hung_up input output reads s fd)
  unfolding on_ready
  on_ready-Fine true input output reads s fd below h =
      ran-Fine _ (close_conn-IsArmed s fd below (λ other l differs. h other l))
  on_ready-Fine false input output reads s fd below h =
      and_then-Fine _ _ (input_part input reads s fd below h)
        (λ after armed. output_part output after fd below armed)

  -- From any state in which every connection is registered for what it waits for, an event on a
  -- descriptor below the limit, a passed one not being in the table yet, is handled within the
  -- fuel, and leaves such a state unless the process aborts.
  pub handle-IsArmed :
      (s : Server) (event : Event)
      → IsArmed s
      → IsPossible memmem assume handler s event
      → (handle memmem assume handler event s ≢ out_of_fuel)
        × Leaves (handle memmem assume handler event s)
  unfolding handle
  handle-IsArmed s (passed configured reads fd) h new = (
    on_new_client_fd-ends m assume handler configured reads s fd,
    on_new_client_fd-Leaves memmem assume handler configured reads s fd new h,
  )
  handle-IsArmed s (ready hung_up input output reads fd) h below =
      on_ready-Fine hung_up input output reads s fd below h

  -- In every state that the loop reaches, each connection of the table is registered for the
  -- event it waits for, and no other descriptor below the limit is registered.
  pub Reaches-IsArmed : (pool : ℕ) (s : Server) → Reaches memmem assume handler pool s → IsArmed s
  unfolding new
  Reaches-IsArmed pool s (start writes) = λ fd below. refl
  Reaches-IsArmed pool s (step before after event writes reached possible e) =
      let fine = handle-IsArmed before event (Reaches-IsArmed pool before reached) possible in
      rw e at fine.1
