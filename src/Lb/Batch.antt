-- ===== src/Lb/Batch.antt =====
-- src/lb/main.rs: a batch of `run_round_robin`, and the upstream at which each client starts.
use rinha_rust_tree.Prelude.{
  ℕ, zero, suc, ◌+◌, ◌*◌, ◌%◌, ◌<◌, ◌≤◌, ◌≡◌, refl, List, [], ◌∷◌, Option, none, some, arith,
}
use native.Mathlib.Nat.{mod-add-mod, mod-eq_of_lt}
use mathlib.Core.Path.{ap}
use rinha_rust_tree.Lb.{Rotation, run_batch}
use rinha_rust_tree.Lb.Dispatch.{answers, serve_peer_lem}

-- the clients that a batch of at most `n` accepts
abbrev pub accepted : ℕ → List (Option ℕ) → ℕ
accepted zero accepts = 0
accepted (suc n) [] = 0
accepted (suc n) (none ∷ accepts) = 0
accepted (suc n) (some fd ∷ accepts) = 1 + accepted n accepts

mod_step : (c n pool : ℕ) → c < pool → ((c + 1) % pool + n) % pool ≡ (c + (1 + n)) % pool
mod_step c n pool h = rw (mod-add-mod (c + 1) pool n) (ap (λ m. m % pool) (omega arith))

mod_small : (c pool : ℕ) → c < pool → c ≡ (c + 0) % pool
mod_small c pool h = let e = mod-eq_of_lt {n = c + 0} {m = pool} (omega arith) in omega arith

budget : (n c m : ℕ) → (1 + n) * c ≤ m → n * c + c ≤ m
budget n c m h = omega arith

-- For a pool that holds the cursor, and a script in which `sendmsg` answers at least 2 · pool + 2
-- times for each client that the batch accepts, other than with EINTR, `run_batch` returns. It
-- counts the clients that it accepts, at most `n`, and moves the cursor on by one for each of them,
-- round the pool.
pub run_batch_lem :
    (n pool : ℕ) (accepts : List (Option ℕ)) (r : Rotation)
    → r.cursor < pool
    → accepted n accepts * (2 * pool + 2) ≤ answers r.kernel.sends
    → (r' : Rotation) × (rest : List (Option ℕ)) × (run_batch n pool accepts r ≡ some (r', rest))
      × (r'.cursor ≡ (r.cursor + accepted n accepts) % pool)
      × (r'.processed ≡ r.processed + accepted n accepts)
      × (accepted n accepts ≤ n)
unfolding run_batch
run_batch_lem zero pool accepts r lt h =
    (r, accepts, refl, mod_small r.cursor pool lt, omega arith, omega arith)
run_batch_lem (suc n) pool [] r lt h =
    (r, [], refl, mod_small r.cursor pool lt, omega arith, omega arith)
run_batch_lem (suc n) pool (none ∷ accepts) r lt h =
    (r, accepts, refl, mod_small r.cursor pool lt, omega arith, omega arith)
run_batch_lem (suc n) pool (some fd ∷ accepts) r lt h =
    let (b, log, k, e, _, _, left) =
      serve_peer_lem pool r.cursor fd (accepted n accepts * (2 * pool + 2)) r.kernel lt
        (budget (accepted n accepts) (2 * pool + 2) (answers r.kernel.sends) h) in
    let (r', rest, e', c', p', l') =
      run_batch_lem n pool accepts
        (record { cursor = (r.cursor + 1) % pool; processed = r.processed + 1; kernel = k })
        (omega arith) left in
    (
      r',
      rest,
      rw (e) e',
      rw (mod_step r.cursor (accepted n accepts) pool lt) at c',
      omega arith,
      omega arith,
    )
