-- ===== src/Ring.antt =====
-- The shared rings that carry locally decided bans from the workers to a timer: the push ring of
-- sentinel_redis.c and the sink ring of sentinel_cssink.c, and the sink's decision set. Both rings
-- are guarded by a mutex, so an operation is one step. `none` for a ring is a feature that is off
-- or bound to another zone;
-- `strlen` is nginx's NGX_SOCKADDR_STRLEN.
mod Tests
pub mod Fifo
pub mod Sink
use nginx_http_sentinel_modu.Prelude.{
  ℕ, zero, suc, ◌+◌, ◌-◌, ◌%◌, ◌^◌, Bool, true, false, List, [], ◌∷◌, Option, none, some, ltb, leb,
  ◌==◌, ◌&&◌, ◌||◌, if◌then◌else◌, length, get_or, set, Bytes, codes, bytes_eq,
}
use nginx_http_sentinel_modu.Score.{cs_captcha, cs_throttle}

-- `NGX_SENTINEL_REDIS_PUSH_RING` and `NGX_SENTINEL_CSSINK_RING`
abbrev pub push_ring : ℕ
push_ring = 4096

-- `ngx_sentinel_redis_push_t`
pub record Entry : Type 0 where
  pub ip : Bytes
  pub action : ℕ
  pub expiry : ℕ

abbrev pub empty_entry : Entry
empty_entry = record { ip = []; action = 0; expiry = 0 }

-- `ngx_sentinel_redis_shctx_t`. The counters are 64 bits wide.
pub record Ring : Type 0 where
  pub head : ℕ
  pub tail : ℕ
  pub dropped : ℕ
  pub ring : List Entry

-- `head - tail` on unsigned 64-bit numbers.
unfoldable pub used : Ring → ℕ
used r = (r.head + (2 ^ 64 - r.tail)) % 2 ^ 64

-- sentinel_redis_enqueue_ban between lock and unlock, and the same code of
-- sentinel_cssink_enqueue_ban.
unfoldable pub enqueue_locked : Ring → Entry → Ring
enqueue_locked r e =
    if leb push_ring (used r)
    then record r { dropped = suc r.dropped % 2 ^ 64 }
    else record r { ring = set r.ring (r.head % push_ring) e; head = suc r.head % 2 ^ 64 }

-- `sentinel_redis_enqueue_ban`
unfoldable pub redis_enqueue_ban : ℕ → Option Ring → Bytes → ℕ → ℕ → Option Ring
redis_enqueue_ban strlen none ip action expiry = none
redis_enqueue_ban strlen (some r) ip action expiry =
    if length ip == 0 || leb strlen (length ip)
    then some r
    else some (enqueue_locked r (record { ip = ip; action = action; expiry = expiry }))

-- `sentinel_cssink_enqueue_ban`
unfoldable pub cssink_enqueue_ban : ℕ → Option Ring → Bytes → ℕ → ℕ → Option Ring
cssink_enqueue_ban strlen none ip action expiry = none
cssink_enqueue_ban strlen (some r) ip action expiry =
    if length ip == 0 || leb strlen (length ip)
    then some r
    else some (enqueue_locked r (record { ip = ip; action = action; expiry = expiry }))

-- One round of a drain loop under the lock: the oldest entry, or none when the ring is empty.
unfoldable pub dequeue_locked : Ring → Option Entry × Ring
dequeue_locked r = if r.tail == r.head then (none, r) else (
  some (get_or r.ring (r.tail % push_ring) empty_entry),
  record r { tail = suc r.tail % 2 ^ 64 },
)
