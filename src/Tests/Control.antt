-- ===== src/Tests/Control.antt =====
-- src/fd_passing/evented.rs: three connections of the load balancer, of which one is kept.
use rinha_rust_tree.Prelude.{◌≡◌, refl, List, [], ◌∷◌, none, some}
use rinha_rust_tree.FdPassing.Control.{
  Accept, connected, interrupted, failed, accept_control, accept_control-kept,
}

abbrev three : List Accept
three = connected 5 ∷ interrupted ∷ connected 6 ∷ connected 7 ∷ failed ∷ []

two_accepted :
    accept_control 2 none three
    ≡ record { control = some 5; closed = 6 ∷ []; script = connected 7 ∷ failed ∷ [] }
unfolding accept_control
two_accepted = refl

one_a_tick : accept_control 0 none three ≡ record {
  control = some 5;
  closed = [];
  script = interrupted ∷ connected 6 ∷ connected 7 ∷ failed ∷ [];
}
unfolding accept_control
one_a_tick = refl

accept_control-kept_example : (accept_control 0 (some 4) three).control ≡ some 4
accept_control-kept_example = accept_control-kept 0 4 three
