-- ===== src/Tests/Lb.antt =====
-- src/lb/main.rs: the settings, a client, and a batch.
use rinha_rust_tree.Prelude.{ℕ, ◌≤◌, ◌≡◌, refl, Bool, List, [], ◌∷◌, Option, none, some, All, arith}
use rinha_rust_tree.Http.Bytes.{codes}
use rinha_rust_tree.Lb.{
  Kernel, Rotation, Action, handed, restored, closed, sent, interrupted, would_block, broken,
  serve_peer, run_batch,
}
use rinha_rust_tree.Lb.Settings.{
  ok, err, relative_path, invalid_cpu, no_colon, parse_worker_map, parse_worker_map-IsAbsolute,
  IsAbsolute, upstream_paths,
}
use rinha_rust_tree.Lb.Dispatch.{answers, Stands, serve_peer_lem}
use rinha_rust_tree.Lb.Batch.{run_batch_lem}

accepted_map :
    parse_worker_map (codes " 2:/a.sock, 3:/b.sock ")
    ≡ ok (
        record { cpu = 2; socket_path = codes "/a.sock" }
        ∷ record { cpu = 3; socket_path = codes "/b.sock" }
        ∷ [])
unfolding parse_worker_map
accepted_map = refl

empty_map : parse_worker_map (codes "  ") ≡ ok []
unfolding parse_worker_map
empty_map = refl

relative_map : parse_worker_map (codes "2:a.sock") ≡ err relative_path
unfolding parse_worker_map
relative_map = refl

cpu_map : parse_worker_map (codes "x:/a.sock") ≡ err invalid_cpu
unfolding parse_worker_map
cpu_map = refl

trailing_comma : parse_worker_map (codes "2:/a.sock,") ≡ err no_colon
unfolding parse_worker_map
trailing_comma = refl

two_paths : upstream_paths (codes "/a, ,/b") ≡ codes "/a" ∷ codes "/b" ∷ []
unfolding upstream_paths
two_paths = refl

abbrev kernel : Kernel
kernel = record {
  sends =
      interrupted ∷ would_block ∷ broken ∷ broken ∷ sent ∷ sent ∷ sent ∷ sent ∷ sent ∷ sent ∷ sent
      ∷ sent ∷ [];
  log = [];
}

abbrev second : Kernel
second = record {
  sends = sent ∷ sent ∷ sent ∷ sent ∷ sent ∷ sent ∷ sent ∷ [];
  log = closed 7 ∷ handed 1 7 ∷ restored 0 ∷ [];
}

-- upstream 1 is full, upstream 0 is lost twice, and the send that blocks reaches upstream 1
served : serve_peer 2 1 7 kernel ≡ some second
unfolding serve_peer
served = refl

abbrev rotation : Rotation
rotation = record { cursor = 1; processed = 0; kernel = kernel }

parse_worker_map-IsAbsolute_example :
    All IsAbsolute (record { cpu = 2; socket_path = codes "/a.sock" } ∷ [])
unfolding parse_worker_map
parse_worker_map-IsAbsolute_example =
    parse_worker_map-IsAbsolute (codes "2:/a.sock")
      (record { cpu = 2; socket_path = codes "/a.sock" } ∷ []) refl

serve_peer_example :
    (b : Bool) × (log : List Action) × (after : Kernel) × (serve_peer 2 1 7 kernel ≡ some after)
    × (after.log ≡ closed 7 ∷ log)
    × Stands 7 2 [] b log
    × (5 ≤ answers after.sends)
serve_peer_example = serve_peer_lem 2 1 7 5 kernel (omega arith) (omega arith)

run_batch_example :
    (r' : Rotation) × (rest : List (Option ℕ)) × (run_batch 8 2 (some 7 ∷ none ∷ []) rotation
      ≡ some (r', rest))
    × (r'.cursor ≡ 0)
    × (r'.processed ≡ 1)
    × (1 ≤ 8)
run_batch_example = run_batch_lem 8 2 (some 7 ∷ none ∷ []) rotation (omega arith) (omega arith)
