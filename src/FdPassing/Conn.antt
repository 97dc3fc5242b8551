-- ===== src/FdPassing/Conn.antt =====
-- src/fd_passing/conn.rs: the connections by descriptor, their buffers and their responses.
-- A vector of 65536 slots is a function on descriptors, with the bound tested where the code
-- tests it; a descriptor is a natural number.
use rinha_rust_tree.Prelude.{
  ℕ, Bool, ◌&&◌, List, [], ◌∷◌, Option, none, some, ltb, leb, ◌==◌, if◌then◌else◌, length,
  replicate,
}
use rinha_rust_tree.Http.Bytes.{Bytes}
use rinha_rust_tree.FdPassing.Batch.{ResponseBatch}

abbrev pub buf_size : ℕ
buf_size = 2048

abbrev pub max_client_fd : ℕ
max_client_fd = 65536

pub data Interest : Type 0 where
  epollin epollout : Interest

pub data ConnState : Type 0 where
  reading : Bytes → ℕ → ConnState
  writing : Bytes → ResponseBatch → ℕ → ℕ → ℕ → Bool → ConnState

pub record ConnTable : Type 0 where
  pub slots : ℕ → Option ConnState
  pub interests : ℕ → Option Interest
  pub buf_pool : List Bytes
  pub buf_pool_cap : ℕ

abbrev pub set_at {ℓ} : {A : Type ℓ} → (ℕ → A) → ℕ → A → ℕ → A
set_at f i a j = if j == i then a else f j

abbrev pub new_buf : Bytes
new_buf = replicate buf_size 0

-- `buf_pool_cap` is read from the environment.
unfoldable pub new : ℕ → ConnTable
new buf_pool_cap = record {
  slots = λ fd. none;
  interests = λ fd. none;
  buf_pool = replicate buf_pool_cap new_buf;
  buf_pool_cap = buf_pool_cap;
}

unfoldable pub epoll_interest : ConnTable → ℕ → Option Interest
epoll_interest table fd = if ltb fd max_client_fd then table.interests fd else none

unfoldable pub set_epoll_interest : ConnTable → ℕ → Option Interest → ConnTable
set_epoll_interest table fd interest =
    if ltb fd max_client_fd
    then record table { interests = set_at table.interests fd interest }
    else table

unfoldable pub alloc_buf : ConnTable → Bytes × ConnTable
alloc_buf table = elim table.buf_pool [
  | [] ↦ (new_buf, table)
  | buf ∷ pool ↦ (buf, record table { buf_pool = pool })
]

unfoldable pub recycle_buf : ConnTable → Bytes → ConnTable
recycle_buf table buf =
    if ltb 0 table.buf_pool_cap && ltb (length table.buf_pool) table.buf_pool_cap
    then record table { buf_pool = buf ∷ table.buf_pool }
    else table

unfoldable pub recycle_conn_state_buf : ConnTable → ConnState → ConnTable
unfolding recycle_buf
recycle_conn_state_buf table (reading buf used) = recycle_buf table buf
recycle_conn_state_buf table (writing buf _ _ _ _ _) = recycle_buf table buf

unfoldable pub insert : ConnTable → ℕ → ConnState → ConnTable
insert table fd state =
    if leb max_client_fd fd
    then table
    else record table { slots = set_at table.slots fd (some state) }

unfoldable pub remove : ConnTable → ℕ → Option ConnState × ConnTable
remove table fd =
    if ltb fd max_client_fd
    then (table.slots fd, record table { slots = set_at table.slots fd none })
    else (none, table)
