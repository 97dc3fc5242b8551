-- ===== src/FdPassing/Batch.antt =====
-- src/fd_passing/conn.rs: the batch of pipelined responses, an array of 64 with a length.
use rinha_rust_tree.Prelude.{
  ℕ, ◌+◌, Bool, List, [], ◌∷◌, Option, none, some, ◌==◌, if◌then◌else◌, length, take, set,
  replicate,
}
use rinha_rust_tree.Http.Bytes.{Bytes}

abbrev pub max_pipelined_responses : ℕ
max_pipelined_responses = 64

pub record ResponseBatch : Type 0 where
  pub items : List Bytes
  pub len : ℕ

abbrev pub empty_response : Bytes
empty_response = []

unfoldable pub new : ResponseBatch
new = record { items = replicate max_pipelined_responses empty_response; len = 0 }

-- `none` is the refusal, which leaves the batch as it was.
unfoldable pub push : ResponseBatch → Bytes → Option ResponseBatch
push batch response =
    if batch.len == length batch.items
    then none
    else some (record { items = set batch.items batch.len response; len = batch.len + 1 })

abbrev pub or_same : ResponseBatch → Option ResponseBatch → ResponseBatch
or_same batch none = batch
or_same batch (some pushed) = pushed

unfoldable pub single : Bytes → ResponseBatch
unfolding new push
single response = or_same new (push new response)

unfoldable pub is_empty : ResponseBatch → Bool
is_empty batch = batch.len == 0

abbrev pub as_slice : ResponseBatch → List Bytes
as_slice batch = take batch.len batch.items

unfoldable pub total : List Bytes → ℕ
total [] = 0
total (response ∷ responses) = length response + total responses

unfoldable pub total_len : ResponseBatch → ℕ
unfolding total
total_len batch = total (as_slice batch)
