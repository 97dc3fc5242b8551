-- ===== src/FdPassing/Control.antt =====
-- src/fd_passing/evented.rs: `accept_control`, which takes the load balancer's connection. What
-- `accept4` returns is a script, whose end stands for a call that would block; the descriptors that
-- are closed are a log. Setting a descriptor non-blocking and telling epoll of it are left out.
use mathlib.Core.List.{reverse, reverse-cons, append_assoc}
use rinha_rust_tree.Prelude.{
  ℕ, ◌+◌, ◌≡◌, refl, ◌&&◌, List, [], ◌∷◌, Option, none, some, ltb, leb, ◌==◌, if◌then◌else◌, arith,
  ◌++◌, ap, ◌∙◌, zero, suc, take,
}

pub data Accept : Type 0 where
  connected : ℕ → Accept
  would_block : Accept
  interrupted : Accept
  failed : Accept

-- `control` of the event loop, what is closed, the last first, and what is left of the script
pub record Control : Type 0 where
  pub control : Option ℕ
  pub closed : List ℕ
  pub script : List Accept

-- The loop of `accept_control`; a budget that is not positive is 0 here.
unfoldable pub accept_from : ℕ → ℕ → Option ℕ → List ℕ → List Accept → Control
accept_from budget accepted control closed [] = record {
  control = control;
  closed = closed;
  script = [];
}
accept_from budget accepted control closed (would_block ∷ script) =
    if ltb 0 budget && leb budget accepted
    then record { control = control; closed = closed; script = would_block ∷ script }
    else record { control = control; closed = closed; script = script }
accept_from budget accepted control closed (failed ∷ script) =
    if ltb 0 budget && leb budget accepted
    then record { control = control; closed = closed; script = failed ∷ script }
    else record { control = control; closed = closed; script = script }
accept_from budget accepted control closed (interrupted ∷ script) =
    let rest = accept_from budget accepted control closed script in
    if ltb 0 budget && leb budget accepted
    then record { control = control; closed = closed; script = interrupted ∷ script }
    else rest
accept_from budget accepted none closed (connected fd ∷ script) =
    let rest = accept_from budget (accepted + 1) (some fd) closed script in
    if ltb 0 budget && leb budget accepted
    then record { control = none; closed = closed; script = connected fd ∷ script }
    else if budget == 0
    then record { control = some fd; closed = closed; script = script }
    else rest
accept_from budget accepted (some active) closed (connected fd ∷ script) =
    let rest = accept_from budget (accepted + 1) (some active) (fd ∷ closed) script in
    if ltb 0 budget && leb budget accepted
    then record { control = some active; closed = closed; script = connected fd ∷ script }
    else rest

unfoldable pub accept_control : ℕ → Option ℕ → List Accept → Control
unfolding accept_from
accept_control budget control script = accept_from budget 0 control [] script

abbrev pub connections : List Accept → List ℕ
connections [] = []
connections (connected fd ∷ script) = fd ∷ connections script
connections (would_block ∷ script) = connections script
connections (interrupted ∷ script) = connections script
connections (failed ∷ script) = connections script

abbrev pub held : Option ℕ → List ℕ
held none = []
held (some fd) = fd ∷ []

-- An active connection stays, and those that are taken are closed in their order.
accept_from-active :
    (budget accepted active : ℕ) (closed : List ℕ) (script : List Accept)
    → (let c = accept_from budget accepted (some active) closed script in
        (c.control ≡ some active)
        × (reverse c.closed ++ connections c.script ≡ reverse closed ++ connections script))
unfolding accept_from
accept_from-active budget accepted active closed [] = (refl, refl)
accept_from-active budget accepted active closed (would_block ∷ script) = ground arith
accept_from-active budget accepted active closed (failed ∷ script) = ground arith
accept_from-active budget accepted active closed (interrupted ∷ script) =
    let ih = accept_from-active budget accepted active closed script in ground arith
accept_from-active budget accepted active closed (connected fd ∷ script) =
    let ih = accept_from-active budget (accepted + 1) active (fd ∷ closed) script in
    let moved : reverse (fd ∷ closed) ++ connections script
        ≡ reverse closed ++ (fd ∷ connections script) =
      ap (λ xs. xs ++ connections script) (reverse-cons fd closed)
      ∙ append_assoc (reverse closed) (fd ∷ []) (connections script) in
    ground (arith, moved)

-- The connections that wait: those before a call that would block or that fails.
abbrev pub waiting : List Accept → List ℕ
waiting [] = []
waiting (connected fd ∷ script) = fd ∷ waiting script
waiting (would_block ∷ script) = []
waiting (interrupted ∷ script) = waiting script
waiting (failed ∷ script) = []

-- Those that are accepted: as many as the budget allows, and without a budget all of them, or one
-- if it becomes the control connection.
abbrev pub within_budget : ℕ → Option ℕ → List ℕ → List ℕ
within_budget zero none fds = take 1 fds
within_budget zero (some active) fds = fds
within_budget (suc n) control fds = take (suc n) fds

-- `accept_control` does not replace a control connection.
pub accept_control-kept :
    (budget active : ℕ) (script : List Accept)
    → (accept_control budget (some active) script).control ≡ some active
unfolding accept_control
accept_control-kept budget active script = (accept_from-active budget 0 active [] script).0
