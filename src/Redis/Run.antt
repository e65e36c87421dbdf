-- ===== src/Redis/Run.antt =====
-- sentinel_redis.c: the timer and the callbacks of hiredis as the steps of one worker's client,
-- with the push ring that other workers write to.
pub mod Linked
pub mod Opens
pub mod Pulls
pub mod Steps
pub mod Recover
use nginx_http_sentinel_modu.Prelude.{
  ℕ, ◌*◌, ◌≡◌, Bool, true, false, List, [], Option, none, some, if◌then◌else◌, any, Bytes,
}
use nginx_http_sentinel_modu.Ring.{Ring, redis_enqueue_ban}
use nginx_http_sentinel_modu.Redis.{
  LinkState, down, connecting, up, Client, World, RedisConf, Notice, released, disconnected,
  auth_dropped, scan_dropped, backoff_min, connect, on_connect, on_disconnect, auth_reply,
  run_notice,
}
use nginx_http_sentinel_modu.Redis.Pull.{Reply, pull_step, scan_reply}
use nginx_http_sentinel_modu.Redis.Push.{flush_push}

-- What sentinel_redis_init_process arms.
abbrev pub first_client : Client
first_client = record {
  state = down;
  ac = false;
  conn = false;
  backoff = backoff_min;
  scan_cursor = 0;
  pull_inflight = false;
  auth_pending = false;
  timer = some 1000;
  sent = [];
}

-- The client and the push ring.
abbrev pub Shared : Type 0
Shared = Client × Option Ring

-- A pull that is not under way starts.
unfoldable pub start_pull : ℕ → World → RedisConf → Client → Client
start_pull strlen w conf c =
    let next = pull_step strlen w conf (record c { pull_inflight = true; scan_cursor = 0 }) in
    if c.pull_inflight then c else next

unfoldable pub flush_and_pull : ℕ → (ℕ → Bytes) → World → RedisConf → ℕ → Shared → Shared
flush_and_pull strlen render w conf now s =
    let (c, push) = flush_push strlen render w conf now s.0 s.1 in
    if s.0.auth_pending then s else (start_pull strlen w conf c, push)

-- The switch over the state.
unfoldable pub work : LinkState → ℕ → (ℕ → Bytes) → World → RedisConf → ℕ → Shared → Shared
work down strlen render w conf now s = (connect w conf s.0, s.1)
work connecting strlen render w conf now s = s
work up strlen render w conf now s = flush_and_pull strlen render w conf now s

-- The end of the handler: the periodic tick, unless a reconnect owns the timer.
unfoldable pub rearm : LinkState → World → RedisConf → Client → Client
rearm down w conf c = c
rearm _ w conf c = if w.exiting then c else record c { timer = some (conf.interval * 1000) }

-- `sentinel_redis_timer_handler`; nginx clears the timer before it calls the handler.
unfoldable pub timer_handler : ℕ → (ℕ → Bytes) → World → RedisConf → ℕ → Shared → Shared
timer_handler strlen render w conf now s =
    let (c, push) = work s.0.state strlen render w conf now (record s.0 { timer = none }, s.1) in
    (rearm c.state w conf c, push)

-- What the event loop delivers: the timer at a time, the end of the connect, the loss of the
-- connection, the answers to AUTH and SCAN, and a callback of a free that hiredis has put off.
pub data Event : Type 0 where
  tick : ℕ → Event
  connected : Bool → Event
  lost : Event
  auth_answer : Bool → Event
  scan_answer : Reply → Event
  late : Notice → Event

unfoldable pub handle : ℕ → (ℕ → Bytes) → RedisConf → World → Event → Shared → Shared
handle strlen render conf w (tick now) s = timer_handler strlen render w conf now s
handle strlen render conf w (connected okay) s = (on_connect w okay s.0, s.1)
handle strlen render conf w lost s = (on_disconnect w.exiting s.0, s.1)
handle strlen render conf w (auth_answer okay) s = (auth_reply w okay s.0, s.1)
handle strlen render conf w (scan_answer r) s = (scan_reply strlen w conf r s.0, s.1)
handle strlen render conf w (late n) s = (run_notice w.exiting n s.0, s.1)

-- hiredis calls the callbacks of a context while the client has it, and those of a free after it
-- has been given up.
abbrev pub Fires : Event → Client → Type 0
Fires (tick now) c = Unit
Fires (late n) c = c.ac ≡ false
Fires _ c = c.ac ≡ true

-- A step of a process that is not exiting: an event, in any world, where a free calls back what it
-- calls back at once and the rest is late, or a ban that a request puts into the ring.
pub data Step (strlen : ℕ) (render : ℕ → Bytes) (conf : RedisConf) : Shared → Shared → Type 0 where
  event :
      (w : World) (e : Event) (s : Shared)
      → w.exiting ≡ false
      → Fires e s.0
      → Step strlen render conf s (handle strlen render conf w e s)
  ban :
      (s : Shared) (ip : Bytes) (action expiry : ℕ)
      → Step strlen render conf s (s.0, redis_enqueue_ban strlen s.1 ip action expiry)

pub data Reach (strlen : ℕ) (render : ℕ → Bytes) (conf : RedisConf) (s : Shared)
    : Shared → Type 0 where
  here : Reach strlen render conf s s
  next :
      {t u : Shared}
      → Reach strlen render conf s t
      → Step strlen render conf t u
      → Reach strlen render conf s u
