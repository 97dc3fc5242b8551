-- ===== src/Lb/Dispatch.antt =====
-- src/lb/main.rs: what happens to the descriptor of a client.
use rinha_rust_tree.Prelude.{
  ℕ, zero, suc, ◌+◌, ◌*◌, ◌%◌, ◌<◌, ◌≤◌, ◌≡◌, refl, Bool, true, false, List, [], ◌∷◌, Option, some,
  arith,
}
use rinha_rust_tree.Lb.{
  Action, handed, restored, closed, Kernel, Send, sent, interrupted, would_block, broken, Transfer,
  delivered, refused, transfer_loop, transfer_descriptor, after_transfer, route_to_upstream,
  dispatch_from, last_resort, serve_peer, note, ◌>>=◌, is_ok,
}

-- the calls of a script that EINTR does not interrupt
abbrev pub answers : List Send → ℕ
answers [] = 0
answers (interrupted ∷ sends) = answers sends
answers (sent ∷ sends) = 1 + answers sends
answers (would_block ∷ sends) = 1 + answers sends
answers (broken ∷ sends) = 1 + answers sends

-- A log on top of `before` that sends `fd` at most once, to an upstream of the pool, and closes
-- nothing. The flag says whether it sends it.
pub data Stands (fd pool : ℕ) (before : List Action) : Bool → List Action → Type 0 where
  nothing : Stands fd pool before false before
  lost :
      (b : Bool) (log : List Action) (node : ℕ)
      → Stands fd pool before b log
      → Stands fd pool before b (restored node ∷ log)
  passed :
      (log : List Action) (node : ℕ)
      → node < pool
      → Stands fd pool before false log
      → Stands fd pool before true (handed node fd ∷ log)

module _ (fd pool : ℕ) (before : List Action) where
  -- what an attempt on an unsent descriptor gives, with `n` calls of the script left
  abbrev Answers : ℕ → Option (Bool × Kernel) → Type 0
  Answers n r =
      (b : Bool) × (k : Kernel) × (r ≡ some (b, k))
      × Stands fd pool before b k.log
      × (n ≤ answers k.sends)

  abbrev Transfers : ℕ → Option (Transfer × Kernel) → Type 0
  Transfers n r =
      (t : Transfer) × (k : Kernel) × (r ≡ some (t, k))
      × Stands fd pool before (is_ok t) k.log
      × (n ≤ answers k.sends)

  transfer_loop_lem :
      (sends : List Send) (log : List Action) (node n : ℕ)
      → node < pool
      → Stands fd pool before false log
      → n + 1 ≤ answers sends
      → Transfers n (transfer_loop sends log node fd)
  unfolding transfer_loop
  transfer_loop_lem [] log node n lt st h = absurd (omega arith)
  transfer_loop_lem (interrupted ∷ sends) log node n lt st h =
      transfer_loop_lem sends log node n lt st h
  transfer_loop_lem (sent ∷ sends) log node n lt st h =
      (delivered, _, refl, passed log node lt st, omega arith)
  transfer_loop_lem (would_block ∷ sends) log node n lt st h =
      (refused true, _, refl, st, omega arith)
  transfer_loop_lem (broken ∷ sends) log node n lt st h = (refused false, _, refl, st, omega arith)

  transfer_descriptor_lem :
      (kernel : Kernel) (node n : ℕ)
      → node < pool
      → Stands fd pool before false kernel.log
      → n + 1 ≤ answers kernel.sends
      → Transfers n (transfer_descriptor node fd kernel)
  unfolding transfer_descriptor
  transfer_descriptor_lem kernel node n lt st h =
      transfer_loop_lem kernel.sends kernel.log node n lt st h

  -- the second attempt of `after_transfer`
  again_lem :
      (kernel : Kernel) (node n : ℕ)
      → node < pool
      → Stands fd pool before false kernel.log
      → n + 1 ≤ answers kernel.sends
      → Answers n (
          transfer_descriptor node fd (note (restored node) kernel) >>= λ (t, k). some (is_ok t, k))
  again_lem kernel node n lt st h =
      let (t, k, e, st', h') =
        transfer_descriptor_lem (note (restored node) kernel) node n lt
          (lost false kernel.log node st) h in
      rw (e) (is_ok t, k, refl, st', h')

  after_transfer_lem :
      (t : Transfer) (kernel : Kernel) (node n : ℕ) (async_mode : Bool)
      → node < pool
      → Stands fd pool before (is_ok t) kernel.log
      → n + 1 ≤ answers kernel.sends
      → Answers n (after_transfer node fd async_mode t kernel)
  unfolding after_transfer
  after_transfer_lem delivered kernel node n async_mode lt st h =
      (true, kernel, refl, st, omega arith)
  after_transfer_lem (refused true) kernel node n true lt st h =
      (false, kernel, refl, st, omega arith)
  after_transfer_lem (refused true) kernel node n false lt st h = again_lem kernel node n lt st h
  after_transfer_lem (refused false) kernel node n true lt st h = again_lem kernel node n lt st h
  after_transfer_lem (refused false) kernel node n false lt st h = again_lem kernel node n lt st h

  route_to_upstream_lem :
      (kernel : Kernel) (node n : ℕ) (async_mode : Bool)
      → node < pool
      → Stands fd pool before false kernel.log
      → n + 2 ≤ answers kernel.sends
      → Answers n (route_to_upstream node fd async_mode kernel)
  unfolding route_to_upstream
  route_to_upstream_lem kernel node n async_mode lt st h =
      let (t, k, e, st', h') = transfer_descriptor_lem kernel node (n + 1) lt st (omega arith) in
      rw (e) (after_transfer_lem t k node n async_mode lt st' h')

  dispatch_from_lem :
      (m step start_cursor n : ℕ) (kernel : Kernel)
      → 0 < pool
      → Stands fd pool before false kernel.log
      → n + 2 * m ≤ answers kernel.sends
      → Answers n (dispatch_from m step start_cursor pool fd kernel)
  unfolding dispatch_from
  dispatch_from_lem zero step start_cursor n kernel pos st h =
      (false, kernel, refl, st, omega arith)
  dispatch_from_lem (suc m) step start_cursor n kernel pos st h =
      let (b, k, e, st', h') =
        route_to_upstream_lem kernel ((start_cursor + step) % pool) (n + 2 * m) true (omega arith)
          st (omega arith) in
      rw (e)
        (next b k st' h' (λ st'' h''. dispatch_from_lem m (step + 1) start_cursor n k pos st'' h''))
    where
      next :
          (b : Bool) (k : Kernel)
          → Stands fd pool before b k.log
          → n + 2 * m ≤ answers k.sends
          → (Stands fd pool before false k.log
              → n + 2 * m ≤ answers k.sends
              → Answers n (dispatch_from m (step + 1) start_cursor pool fd k))
          → Answers n (elim b [
            | true ↦ some (true, k)
            | false ↦ dispatch_from m (step + 1) start_cursor pool fd k
          ])
      next true k st' h' rest = (true, k, refl, st', omega arith)
      next false k st' h' rest = rest st' h'

  abbrev Ends : ℕ → Option Kernel → Type 0
  Ends n r =
      (b : Bool) × (k : Kernel) × (r ≡ some k)
      × Stands fd pool before b k.log
      × (n ≤ answers k.sends)

  last_resort_lem :
      (b : Bool) (node n : ℕ) (kernel : Kernel)
      → node < pool
      → Stands fd pool before b kernel.log
      → n + 2 ≤ answers kernel.sends
      → Ends n (last_resort node fd b kernel)
  unfolding last_resort
  last_resort_lem true node n kernel lt st h = (true, kernel, refl, st, omega arith)
  last_resort_lem false node n kernel lt st h =
      let (b, k, e, st', h') = route_to_upstream_lem kernel node n false lt st h in
      rw (e) (b, k, refl, st', h')

-- For a cursor inside a pool of upstreams, and a script in which `sendmsg`
-- answers at least n + 2 · pool + 2 times other than with EINTR, `serve_peer` returns. It closes the
-- client's descriptor once, as its last action, and before that it sends the descriptor to at most
-- one upstream, one of the pool. It leaves n of the answers.
pub serve_peer_lem :
    (pool cursor fd n : ℕ) (kernel : Kernel)
    → cursor < pool
    → n + (2 * pool + 2) ≤ answers kernel.sends
    → (b : Bool) × (log : List Action) × (after : Kernel) × (serve_peer pool cursor fd kernel
        ≡ some after)
      × (after.log ≡ closed fd ∷ log)
      × Stands fd pool kernel.log b log
      × (n ≤ answers after.sends)
unfolding serve_peer
serve_peer_lem pool cursor fd n kernel lt h =
    let (b, k, e, st, h') =
      dispatch_from_lem fd pool kernel.log pool 0 cursor (n + 2) kernel (omega arith) nothing
        (omega arith) in
    let (b', k', e', st', h'') = last_resort_lem fd pool kernel.log b cursor n k lt st h' in
    (b', k'.log, note (closed fd) k', rw (e) (rw (e') refl), refl, st', h'')
