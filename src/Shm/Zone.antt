-- ===== src/Shm/Zone.antt =====
-- sentinel_shm.c: nodes, the LRU queue (most recent first) and its expiry. The operations search
-- the queue by key where the source searches its tree, which is in Tree.
pub mod Find
pub mod Expire
use mathlib.Core.List.{reverse}
use nginx_http_sentinel_modu.Prelude.{
  ℕ, zero, suc, ◌+◌, Bool, List, [], ◌∷◌, Option, none, some, ltb, if◌then◌else◌, replicate, Bytes,
  bytes_eq,
}

-- `ngx_sentinel_node_t` less its tree and queue links. `events` is the ring behind the key bytes.
pub record Node : Type 0 where
  pub key : Bytes
  pub blocked_until : ℕ
  pub last_seen : ℕ
  pub event_head : ℕ
  pub event_count : ℕ
  pub cs_generation : ℕ
  pub cs_action : ℕ
  pub redis_pulled : ℕ
  pub events : List ℕ

-- `ngx_sentinel_zone_t` with the shared context that it points to.
pub record Zone : Type 0 where
  pub interval : ℕ
  pub block : ℕ
  pub threshold : ℕ
  pub cs_generation : ℕ
  pub queue : List Node

-- `NGX_SENTINEL_EXPIRE_BATCH`
abbrev pub expire_batch : ℕ
expire_batch = 2

-- From the oldest entry on, up to `batch` entries that are neither blocked nor seen within the
-- interval. `now - last_seen < interval` is written without a subtraction.
unfoldable pub expire_oldest : ℕ → ℕ → ℕ → List Node → List Node
expire_oldest interval now zero q = q
expire_oldest interval now (suc batch) [] = []
expire_oldest interval now (suc batch) (n ∷ q) =
    if ltb now n.blocked_until
    then n ∷ q
    else if ltb now (n.last_seen + interval)
    then n ∷ q
    else expire_oldest interval now batch q

-- `sentinel_shm_expire`: the new queue.
unfoldable pub expire : Zone → ℕ → ℕ → List Node
unfolding expire_oldest
expire z now batch = reverse (expire_oldest z.interval now batch (reverse z.queue))

-- `sentinel_shm_lookup`
unfoldable pub find_node : Bytes → List Node → Option Node
find_node k [] = none
find_node k (n ∷ q) = if bytes_eq k n.key then some n else find_node k q

-- `ngx_queue_remove` of the node that `find_node` returns.
unfoldable pub remove_node : Bytes → List Node → List Node
remove_node k [] = []
remove_node k (n ∷ q) = if bytes_eq k n.key then q else n ∷ remove_node k q

-- `sentinel_shm_create_node`: the zeroed node that goes to the head of the queue. Whether the
-- slab has room is an argument of the operations that allocate.
unfoldable pub create_node : Zone → Bytes → ℕ → Node
create_node z k now = record {
  key = k;
  blocked_until = 0;
  last_seen = now;
  event_head = 0;
  event_count = 0;
  cs_generation = 0;
  cs_action = 0;
  redis_pulled = 0;
  events = replicate z.threshold 0;
}
