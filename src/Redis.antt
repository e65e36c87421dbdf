-- ===== src/Redis.antt =====
-- sentinel_redis.c: the client that shares bans between nodes, one for each worker. The state and
-- the life of its connection; `Pull` reads the remote bans, `Push` publishes the local ones, `Run`
-- has the timer and the callbacks as steps. hiredis and the event loop are a parameter: what they
-- answer during one call is a `World`.
mod Tests
pub mod Cursor
pub mod Pull
pub mod Pattern
pub mod Push
pub mod Publish
pub mod Share
pub mod Run
use nginx_http_sentinel_modu.Prelude.{
  ℕ, ◌*◌, ◌%◌, ◌^◌, Bool, true, false, List, [], ◌∷◌, ◌++◌, Option, none, some, ltb, ◌==◌,
  if◌then◌else◌, length, Bytes,
}

-- `sentinel_redis_state_e`
pub data LinkState : Type 0 where
  down connecting up : LinkState

abbrev pub is_down : LinkState → Bool
is_down down = true
is_down _ = false

abbrev pub is_up : LinkState → Bool
is_up up = true
is_up _ = false

-- The commands that the client issues. A pattern that the C string of SCAN runs past is `none`.
pub data Command : Type 0 where
  auth : Bytes → Command
  scan : ℕ → Option Bytes → Command
  get : Bytes → Bytes → Command
  publish : Bytes → Bytes → ℕ → Command

-- `sentinel_redis_ctx_t`: whether there is a context and an nginx connection, the delay of the
-- timer when it is set, and the commands that hiredis has taken, oldest first.
pub record Client : Type 0 where
  pub state : LinkState
  pub ac : Bool
  pub conn : Bool
  pub backoff : ℕ
  pub scan_cursor : ℕ
  pub pull_inflight : Bool
  pub auth_pending : Bool
  pub timer : Option ℕ
  pub sent : List Command

-- The fields of the location's configuration.
pub record RedisConf : Type 0 where
  pub password : Bytes
  pub prefix : Bytes
  pub interval : ℕ

-- What `redisAsyncFree` calls back before it returns: the clean-up hook, the disconnect callback,
-- and the callbacks of unanswered AUTH and SCAN commands with a NULL reply.
pub data Notice : Type 0 where
  released disconnected auth_dropped scan_dropped : Notice

-- Whether the process is exiting, the connect call succeeds and its descriptor gets a connection,
-- which commands are taken, and what a free calls back.
pub record World : Type 0 where
  pub exiting : Bool
  pub opened : Bool
  pub attached : Bool
  pub accepts : Command → Bool
  pub freed : List Notice

-- `NGX_SENTINEL_REDIS_BACKOFF_MIN_MS` and `NGX_SENTINEL_REDIS_BACKOFF_MAX_MS`
abbrev pub backoff_min : ℕ
backoff_min = 500

abbrev pub backoff_max : ℕ
backoff_max = 30000

-- The delay that is used, and the one that follows it.
abbrev pub at_least_min : ℕ → ℕ
at_least_min b = if ltb b backoff_min then backoff_min else b

abbrev pub next_backoff : ℕ → ℕ
next_backoff b =
    let doubled = b * 2 % 2 ^ 64 in if ltb backoff_max doubled then backoff_max else doubled

-- `sentinel_redis_schedule_reconnect`
unfoldable pub schedule_reconnect : Bool → Client → Client
schedule_reconnect exiting c = if exiting then c else record c {
  timer = some (at_least_min c.backoff);
  backoff = next_backoff (at_least_min c.backoff);
}

-- sentinel_redis_teardown up to the test of the context.
abbrev pub reset_link : Client → Client
reset_link c = record c {
  state = down;
  pull_inflight = false;
  auth_pending = false;
  scan_cursor = 0;
}

-- sentinel_redis_teardown without a context.
abbrev pub drop_conn : Client → Client
drop_conn c = record (reset_link c) { conn = false }

-- `sentinel_redis_on_disconnect`, and sentinel_redis_on_connect with an error.
unfoldable pub on_disconnect : Bool → Client → Client
on_disconnect exiting c = schedule_reconnect exiting (drop_conn (record c { ac = false }))

-- One callback of a free: the context is NULL by then.
unfoldable pub run_notice : Bool → Notice → Client → Client
run_notice exiting released c = record c { conn = false }
run_notice exiting disconnected c = on_disconnect exiting c
run_notice exiting auth_dropped c =
    schedule_reconnect exiting (drop_conn (record c { auth_pending = false }))
run_notice exiting scan_dropped c = record c { pull_inflight = false }

unfoldable pub run_notices : Bool → List Notice → Client → Client
run_notices exiting [] c = c
run_notices exiting (n ∷ ns) c = run_notices exiting ns (run_notice exiting n c)

-- `sentinel_redis_teardown`
unfoldable pub teardown : World → Client → Client
teardown w c =
    if c.ac
    then run_notices w.exiting w.freed (record (reset_link c) { ac = false })
    else drop_conn c

-- `sentinel_redis_on_connect`; `connected` is the status REDIS_OK.
unfoldable pub on_connect : World → Bool → Client → Client
on_connect w connected c =
    if connected then record c { state = up; backoff = backoff_min } else on_disconnect w.exiting c

-- `sentinel_redis_auth_reply`; `accepted` is a reply other than an error.
unfoldable pub auth_reply : World → Bool → Client → Client
auth_reply w accepted c =
    let c' = record c { auth_pending = false } in
    if accepted then c' else schedule_reconnect w.exiting (teardown w c')

-- The optional AUTH of sentinel_redis_connect.
unfoldable pub authenticate : World → RedisConf → Client → Client
authenticate w conf c =
    let c' = record c { auth_pending = true } in
    if length conf.password == 0
    then c
    else if w.accepts (auth conf.password)
    then record c' { sent = c.sent ++ (auth conf.password ∷ []) }
    else schedule_reconnect w.exiting (teardown w c')

-- sentinel_redis_connect behind the test of the state.
unfoldable pub open_link : World → RedisConf → Client → Client
open_link w conf c =
    if w.opened
    then (if w.attached
        then authenticate w conf (record c { ac = true; state = connecting; conn = true })
        else schedule_reconnect w.exiting (record c { ac = false; state = down }))
    else schedule_reconnect w.exiting c

-- `sentinel_redis_connect`
unfoldable pub connect : World → RedisConf → Client → Client
connect w conf c = if is_down c.state then open_link w conf c else c
