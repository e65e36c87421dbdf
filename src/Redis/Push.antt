-- ===== src/Redis/Push.antt =====
-- sentinel_redis.c: the flush of the push ring. `render` is what `%T` prints for a time.
use nginx_http_sentinel_modu.Prelude.{
  ℕ, zero, suc, ◌+◌, ◌-◌, Bool, true, false, List, [], ◌∷◌, ◌++◌, Option, none, some, leb, ◌==◌,
  ◌&&◌, ◌||◌, if◌then◌else◌, length, take, Bytes, codes,
}
use nginx_http_sentinel_modu.Score.{cs_captcha, cs_throttle}
use nginx_http_sentinel_modu.Ring.{push_ring, Entry, Ring, dequeue_locked}
use nginx_http_sentinel_modu.Redis.{Client, World, RedisConf, Command, publish, is_up}
use nginx_http_sentinel_modu.Redis.Pull.{ban_infix}

-- `sentinel_redis_action_str`
unfoldable pub action_str : ℕ → Bytes
action_str action =
    if action == cs_captcha
    then codes "captcha"
    else if action == cs_throttle
    then codes "throttle"
    else codes "ban"

-- The key and the value in their buffers.
abbrev ban_key : ℕ → Bytes → Bytes → Bytes
ban_key strlen prefix ip = take (strlen + 64) (prefix ++ (ban_infix ++ ip))

abbrev ban_text : (ℕ → Bytes) → ℕ → ℕ → Bytes
ban_text render action expiry = take 64 (action_str action ++ (32 ∷ render expiry))

-- The SET command for an entry, unless its address does not fit or it has run out. The cast of the
-- remaining time to `int` is not written: an entry that is enqueued has at most the configured time,
-- which the merge bounds by 86400.
unfoldable pub set_command : ℕ → (ℕ → Bytes) → Bytes → ℕ → Entry → Option Command
set_command strlen render prefix now e =
    if length e.ip == 0 || leb strlen (length e.ip)
    then none
    else if leb e.expiry now
    then none
    else some
        (publish (ban_key strlen prefix e.ip) (ban_text render e.action e.expiry) (e.expiry - now))

-- The loop of the flush: the ring, the commands taken so far, how many these are, and whether it
-- has ended.
pub record Drain : Type 0 where
  pub ring : Ring
  pub commands : List Command
  pub drained : ℕ
  pub ended : Bool

abbrev pub issue : World → Option Command → Drain → Drain
issue w none d = d
issue w (some cmd) d =
    if w.accepts cmd
    then record d {
      commands = d.commands ++ (cmd ∷ []);
      drained = suc d.drained;
      ended = leb push_ring (suc d.drained);
    }
    else record d { ended = true }

module _ (strlen : ℕ) (render : ℕ → Bytes) (w : World) (prefix : Bytes) (now : ℕ) where
  -- One round, from what the ring gives.
  abbrev pub flush_entry : Option Entry → Drain → Drain
  flush_entry none d = record d { ended = true }
  flush_entry (some e) d = issue w (set_command strlen render prefix now e) d

  abbrev pub flush_round : Drain → Drain
  flush_round d = let (o, r) = dequeue_locked d.ring in flush_entry o (record d { ring = r })

  unfoldable pub flush_loop : ℕ → Drain → Drain
  flush_loop zero d = d
  flush_loop (suc n) d =
      let d' = flush_round d in elim (d'.ended) [ true ↦ d' | false ↦ flush_loop n d' ]

-- The end of the loop over a ring; the rounds are one more than its slots.
abbrev pub flushed : ℕ → (ℕ → Bytes) → World → Bytes → ℕ → Ring → Drain
flushed strlen render w prefix now r =
    flush_loop strlen render w prefix now (suc push_ring)
      (record { ring = r; commands = []; drained = 0; ended = false })

-- `sentinel_redis_flush_push`
unfoldable pub flush_push :
    ℕ → (ℕ → Bytes) → World → RedisConf → ℕ → Client → Option Ring → Client × Option Ring
flush_push strlen render w conf now c none = (c, none)
flush_push strlen render w conf now c (some r) = elim (c.ac && is_up c.state) [
  | false ↦ (c, some r)
  | true ↦
      let d = flushed strlen render w conf.prefix now r in
      (record c { sent = c.sent ++ d.commands }, some d.ring)
]
