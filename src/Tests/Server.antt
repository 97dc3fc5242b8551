-- ===== src/Tests/Server.antt =====
-- src/fd_passing: a descriptor is passed, and a batch is sent in two writes.
use rinha_rust_tree.Prelude.{
  ℕ, length-replicate, ◌<◌, ◌≡◌, ◌≢◌, refl, true, false, List, [], ◌∷◌, none, some, arith,
}
use rinha_rust_tree.Http.Bytes.{codes}
use rinha_rust_tree.Http.Responses.{Response, response_bytes}
use rinha_rust_tree.Http.Parser.{Request}
use rinha_rust_tree.Tests.Http.{search_bytes, search_bytes-IsMemmem}
use rinha_rust_tree.FdPassing.Batch.{single}
use rinha_rust_tree.FdPassing.Conn.{buf_size, new, new_buf, writing, alloc_buf, max_client_fd}
use rinha_rust_tree.FdPassing.Server.{Server, wrote, write_again, with_conns}
use rinha_rust_tree.FdPassing.Server.Armed.{IsArmed}
use rinha_rust_tree.FdPassing.Write.{Pending, finish_write}
use rinha_rust_tree.FdPassing.Write.Sent.{Sends, finish_write-Sends, stream}
use rinha_rust_tree.FdPassing.Evented.{
  ran, out_of_fuel, keep_reading, read_bytes, on_new_client_fd, greedy_read, after_first_read,
}
use rinha_rust_tree.FdPassing.Evented.Armed.{Leaves}
use rinha_rust_tree.FdPassing.Evented.Reads.{Reads, greedy_read-Reads}
use rinha_rust_tree.FdPassing.Drain.{
  RecvFdResult, received, recv_closed, Loop, Ends, IsServed, AreNew, on_control,
  on_control-IsServed,
}
use rinha_rust_tree.FdPassing.Events.{Event, passed, handle, Reaches, with_writes}
use rinha_rust_tree.FdPassing.Events.Armed.{handle-IsArmed, Reaches-IsArmed}

abbrev always_ready : Request → Response
always_ready req = Response.ready

abbrev first_server : Server
first_server = record { conns = new 0; writes = []; log = [] }

first_server-IsArmed : IsArmed first_server
unfolding new
first_server-IsArmed fd below = refl

-- descriptor 7 is passed, with part of a request
abbrev first_event : Event
first_event = passed true (read_bytes 71 (codes "ET /ready") ∷ []) 7

first_possible : 7 < max_client_fd → first_server.conns.slots 7 ≡ none
unfolding new
first_possible h = refl

handle-IsArmed_example :
    (handle search_bytes false always_ready first_event first_server ≢ out_of_fuel)
    × Leaves (handle search_bytes false always_ready first_event first_server)
handle-IsArmed_example =
    handle-IsArmed search_bytes-IsMemmem false always_ready first_server first_event
      first_server-IsArmed first_possible

-- descriptor 7 comes over the control connection 4, which is then closed
abbrev passing : Loop
passing = record { server = first_server; control = some 4; closed = [] }

abbrev one_client : List RecvFdResult
one_client = received true (read_bytes 71 (codes "ET /ready") ∷ []) 7 ∷ recv_closed ∷ []

one_client-AreNew : AreNew search_bytes false always_ready 8 one_client first_server
unfolding AreNew
one_client-AreNew = (first_possible, λ s' e. tt)

on_control-IsServed_example :
    Ends
      (IsServed false one_client passing)
      (on_control search_bytes false always_ready true false 8 one_client passing)
on_control-IsServed_example =
    on_control-IsServed search_bytes-IsMemmem false always_ready true false 8 one_client passing
      first_server-IsArmed one_client-AreNew

-- descriptor 7 is passed, with nothing to read yet
abbrev second_server : Server
second_server = keep_reading (with_conns first_server (alloc_buf first_server.conns).1) 7 new_buf 0

second_reached :
    handle search_bytes false always_ready (passed true [] 7) first_server ≡ ran second_server
unfolding handle on_new_client_fd greedy_read after_first_read alloc_buf new
second_reached = refl

Reaches-IsArmed_example : IsArmed (with_writes second_server [])
Reaches-IsArmed_example =
    Reaches-IsArmed search_bytes-IsMemmem false always_ready 0 (with_writes second_server []) (
      Reaches.step first_server second_server (passed true [] 7) [] (Reaches.start [])
        first_possible second_reached)

abbrev pending_batch : Pending
pending_batch = record {
  buf = [];
  responses = single (response_bytes Response.ready);
  leftover_off = 0;
  leftover_len = 0;
  keep_alive = true;
}

abbrev writing_server : Server
writing_server = record { conns = new 0; writes = wrote 9 ∷ write_again ∷ []; log = [] }

finish_write-Sends_example :
    Sends [] writing_server.writes 7 pending_batch
      (finish_write writing_server 7 (writing pending_batch.buf pending_batch.responses 0 0 0 true))
unfolding stream
finish_write-Sends_example =
    finish_write-Sends writing_server 7 pending_batch 0 [] (omega arith) refl

greedy_read-Reads_example :
    Reads new_buf 0 (greedy_read (read_bytes 71 (codes "ET /ready") ∷ []) new_buf 0)
greedy_read-Reads_example =
    greedy_read-Reads (read_bytes 71 (codes "ET /ready") ∷ []) new_buf 0
      (length-replicate {A = ℕ} buf_size 0) (omega arith)
