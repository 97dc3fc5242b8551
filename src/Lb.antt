-- ===== src/Lb.antt =====
-- src/lb/main.rs: the load balancer, which hands the sockets of its clients to the upstreams. What
-- `accept4` and `sendmsg` return is a script, one entry per call; what the balancer does to a
-- descriptor is a log, its latest entry first. Options of sockets, sleeps and log lines are left out,
-- and `restore_connection` returns once the upstream is back. `none` is no answer of the code: the
-- script of `sendmsg` ended.
pub mod Settings
pub mod Dispatch
pub mod Batch
use rinha_rust_tree.Prelude.{
  ℕ, zero, suc, ◌+◌, ◌%◌, Bool, true, false, ◌&&◌, List, [], ◌∷◌, Option, none, some, if◌then◌else◌,
}

pub data Send : Type 0 where
  sent : Send
  interrupted : Send
  would_block : Send
  broken : Send

pub data Action : Type 0 where
  handed : ℕ → ℕ → Action
  restored : ℕ → Action
  closed : ℕ → Action

-- what is left of the script, and the log
pub record Kernel : Type 0 where
  pub sends : List Send
  pub log : List Action

pub data Transfer : Type 0 where
  delivered : Transfer
  refused : Bool → Transfer

abbrev pub note : Action → Kernel → Kernel
note a kernel = record kernel { log = a ∷ kernel.log }

-- The `loop` of `transfer_descriptor`, which EINTR leads back to. The template that it sends was
-- built with a control message when the link was. The flag of `refused` says whether the error is
-- EAGAIN.
unfoldable pub transfer_loop : List Send → List Action → ℕ → ℕ → Option (Transfer × Kernel)
transfer_loop [] log node fd = none
transfer_loop (sent ∷ sends) log node fd =
    some (delivered, record { sends = sends; log = handed node fd ∷ log })
transfer_loop (interrupted ∷ sends) log node fd = transfer_loop sends log node fd
transfer_loop (would_block ∷ sends) log node fd =
    some (refused true, record { sends = sends; log = log })
transfer_loop (broken ∷ sends) log node fd =
    some (refused false, record { sends = sends; log = log })

unfoldable pub transfer_descriptor : ℕ → ℕ → Kernel → Option (Transfer × Kernel)
unfolding transfer_loop
transfer_descriptor node fd kernel = transfer_loop kernel.sends kernel.log node fd

infixl 5 ◌>>=◌
abbrev pub ◌>>=◌ {ℓ κ} : {A : Type ℓ} {B : Type κ} → Option A → (A → Option B) → Option B
none >>= f = none
some a >>= f = f a

abbrev is_ok : Transfer → Bool
is_ok delivered = true
is_ok (refused _) = false

-- once the first attempt is over
unfoldable pub after_transfer : ℕ → ℕ → Bool → Transfer → Kernel → Option (Bool × Kernel)
unfolding transfer_descriptor
after_transfer node fd async_mode delivered kernel = some (true, kernel)
after_transfer node fd async_mode (refused eagain) kernel = elim (async_mode && eagain) [
  | true ↦ some (false, kernel)
  | false ↦ transfer_descriptor node fd (note (restored node) kernel) >>= λ (t, kernel').
      some (is_ok t, kernel')
]

-- Whether the descriptor was handed over.
unfoldable pub route_to_upstream : ℕ → ℕ → Bool → Kernel → Option (Bool × Kernel)
unfolding transfer_descriptor after_transfer
route_to_upstream node fd async_mode kernel = transfer_descriptor node fd kernel >>= λ (t, kernel').
    after_transfer node fd async_mode t kernel'

-- `for step in 0..upstream_pool.len()`, `n` upstreams left from `step` on
unfoldable pub dispatch_from : ℕ → ℕ → ℕ → ℕ → ℕ → Kernel → Option (Bool × Kernel)
unfolding route_to_upstream
dispatch_from zero step start_cursor pool fd kernel = some (false, kernel)
dispatch_from (suc n) step start_cursor pool fd kernel =
    route_to_upstream ((start_cursor + step) % pool) fd true kernel >>= λ (dispatched, kernel').
    elim dispatched [
      | true ↦ some (true, kernel')
      | false ↦ dispatch_from n (step + 1) start_cursor pool fd kernel'
    ]

-- `if !dispatched`, with a send that blocks
unfoldable pub last_resort : ℕ → ℕ → Bool → Kernel → Option Kernel
unfolding route_to_upstream
last_resort node fd true kernel = some kernel
last_resort node fd false kernel =
    route_to_upstream node fd false kernel >>= λ (_, kernel'). some kernel'

-- One accepted client: the dispatch, and the close.
unfoldable pub serve_peer : ℕ → ℕ → ℕ → Kernel → Option Kernel
unfolding dispatch_from last_resort
serve_peer pool cursor fd kernel =
    dispatch_from pool 0 cursor pool fd kernel >>= λ (dispatched, kernel').
    last_resort cursor fd dispatched kernel' >>= λ after. some (note (closed fd) after)

-- the state of the loop of `run_round_robin`
pub record Rotation : Type 0 where
  pub cursor : ℕ
  pub processed : ℕ
  pub kernel : Kernel

-- `while processed_count < batch_limit`, `n` clients left; an `accept4` that has none, or fails,
-- is `none`, and so is the end of its script.
unfoldable pub run_batch : ℕ → ℕ → List (Option ℕ) → Rotation → Option (Rotation × List (Option ℕ))
unfolding serve_peer
run_batch zero pool accepts r = some (r, accepts)
run_batch (suc n) pool [] r = some (r, [])
run_batch (suc n) pool (none ∷ accepts) r = some (r, accepts)
run_batch (suc n) pool (some fd ∷ accepts) r = serve_peer pool r.cursor fd r.kernel >>= λ kernel'.
    run_batch n pool accepts
      (record { cursor = (r.cursor + 1) % pool; processed = r.processed + 1; kernel = kernel' })

-- One client of `run_paired_worker`, whose upstream is `node`.
unfoldable pub serve_paired : ℕ → ℕ → Kernel → Option Kernel
unfolding route_to_upstream last_resort
serve_paired node fd kernel = route_to_upstream node fd true kernel >>= λ (dispatched, kernel').
    last_resort node fd dispatched kernel' >>= λ after. some (note (closed fd) after)
