-- ===== src/Tarpit.antt =====
-- sentinel_tarpit.c: the capped slow drip. The worker's slot is one of the counters of all workers;
-- here the compare-and-swap succeeds at once, and `Race` has its loop under other workers' steps.
mod Tests
pub mod Slots
pub mod Drip
pub mod Run
pub mod Race
use nginx_http_sentinel_modu.Prelude.{
  ℕ, zero, suc, ◌+◌, ◌-◌, ◌*◌, ◌/◌, ◌%◌, ◌^◌, min, Bool, true, false, List, [], ◌∷◌, ◌++◌, Option,
  none, some, ltb, leb, ◌==◌, ◌||◌, if◌then◌else◌, length, get_or, set, take, replicate, Bytes,
  codes,
}
use nginx_http_sentinel_modu.Nginx.{Rc, ok, error, again, done, declined, status}

-- `NGX_SENTINEL_TARPIT_TICK_BYTES`
abbrev tick_bytes : ℕ
tick_bytes = 32

-- `NGX_HTTP_CLOSE`
abbrev pub http_close : Rc
http_close = status 444

-- `ngx_sentinel_tarpit_ctx_t`, without the reused buffer.
pub record Tarpit : Type 0 where
  pub deadline : ℕ
  pub bytes_sent : ℕ
  pub bytes_total : ℕ
  pub delay_ms : ℕ
  pub slot : ℕ
  pub rng : ℕ
  pub counted : Bool
  pub maze : Bool

-- `sentinel_tarpit_sum` over the counters of all workers.
unfoldable pub tarpit_sum : List ℕ → ℕ
tarpit_sum [] = 0
tarpit_sum (c ∷ cs) = c + tarpit_sum cs

-- `ngx_atomic_fetch_add (slot, 1)` and `ngx_atomic_fetch_add (slot, -1)`
unfoldable pub inc_slot : List ℕ → ℕ → List ℕ
inc_slot conns slot = set conns slot (suc (get_or conns slot 0))

unfoldable pub dec_slot : List ℕ → ℕ → List ℕ
dec_slot conns slot = set conns slot (get_or conns slot 0 - 1)

-- `worker >= NGX_MAX_PROCESSES ? 0 : worker`
unfoldable pub slot_of : List ℕ → ℕ → ℕ
slot_of conns worker = if leb (length conns) worker then 0 else worker

-- `sentinel_tarpit_reserve`: the return code, the slot and the counters, which are `none` when
-- they are not set up.
unfoldable pub reserve : Option (List ℕ) → ℕ → ℕ → Rc × ℕ × Option (List ℕ)
reserve none worker max_conns = (error, 0, none)
reserve (some conns) worker max_conns =
    let slot = slot_of conns worker in
    if max_conns == 0
    then (error, slot, some conns)
    else if leb max_conns (tarpit_sum conns)
    then (http_close, slot, some conns)
    else (ok, slot, some (inc_slot conns slot))

-- `sentinel_tarpit_cleanup`
unfoldable pub cleanup : Tarpit → List ℕ → Tarpit × List ℕ
cleanup t conns =
    if t.counted then (record t { counted = false }, dec_slot conns t.slot) else (t, conns)

-- `sentinel_tarpit_init_process`
unfoldable init_process : Option (List ℕ) → ℕ → Option (List ℕ)
init_process none worker = none
init_process (some conns) worker = some (set conns (slot_of conns worker) 0)

-- The configuration of the tarpit.
pub record TarpitConf : Type 0 where
  pub max_conns : ℕ
  pub delay : ℕ
  pub bytes : ℕ
  pub max_lifetime : ℕ
  pub maze : Bool

-- What the calls of sentinel_tarpit_start answer: the two allocations and ngx_http_send_header,
-- and the seed that it takes from the clock, the descriptor and the address.
pub record StartEnv : Type 0 where
  pub ctx_alloc : Bool
  pub cleanup_alloc : Bool
  pub header_rc : Rc
  pub seed : ℕ

-- How a tarpitted request goes on: the timer is armed, or the request has been finalized. The
-- registered cleanup runs when nginx destroys the request's pool.
pub data Started : Type 0 where
  refused : Rc → Started
  armed : Tarpit → ℕ → Started
  finalized : Tarpit → Rc → Started

abbrev pub rc_of : Started → Rc
rc_of (refused rc) = rc
rc_of (armed t wait) = done
rc_of (finalized t rc) = done

abbrev pub tarpit_ctx : TarpitConf → StartEnv → ℕ → ℕ → Tarpit
tarpit_ctx conf env now slot = record {
  deadline = now + conf.max_lifetime;
  bytes_sent = 0;
  bytes_total = conf.bytes;
  delay_ms = conf.delay;
  slot = slot;
  rng = env.seed % 2 ^ 32;
  counted = true;
  maze = conf.maze;
}

-- `sentinel_tarpit_start` after the slot is reserved.
unfoldable pub start_reserved : TarpitConf → StartEnv → ℕ → ℕ → List ℕ → Started × List ℕ
start_reserved conf env now slot conns =
    let t = tarpit_ctx conf env now slot in
    if env.ctx_alloc
    then if env.cleanup_alloc
      then elim env.header_rc [
        | error ↦ (finalized t error, conns)
        | status n ↦ (finalized t done, conns)
        | _ ↦ (armed t t.delay_ms, conns)
      ]
      else (refused declined, dec_slot conns slot)
    else (refused declined, dec_slot conns slot)

-- `sentinel_tarpit_start` by the answer of sentinel_tarpit_reserve.
unfoldable pub after_reserve :
    TarpitConf → StartEnv → ℕ → Rc × ℕ × Option (List ℕ) → Started × Option (List ℕ)
after_reserve conf env now (ok, slot, some conns) =
    let (s, conns') = start_reserved conf env now slot conns in (s, some conns')
after_reserve conf env now (status n, slot, conns) = (refused (status n), conns)
after_reserve conf env now (rc, slot, conns) = (refused declined, conns)

-- `sentinel_tarpit_start`
unfoldable pub tarpit_start :
    TarpitConf → StartEnv → Option (List ℕ) → ℕ → ℕ → Started × Option (List ℕ)
tarpit_start conf env conns worker now =
    after_reserve conf env now (reserve conns worker conf.max_conns)

-- The digit loop of sentinel_tarpit_maze_fragment.
unfoldable pub maze_digits : ℕ → ℕ → ℕ × Bytes
maze_digits zero rng = (rng, [])
maze_digits (suc n) rng =
    let rng' = (rng * 1664525 + 1013904223) % 2 ^ 32 in
    let (last, digits) = maze_digits n rng' in
    (last, get_or (codes "0123456789abcdef") (rng' / 2 ^ 24 % 16) 0 ∷ digits)

-- `sentinel_tarpit_maze_fragment`
unfoldable pub maze_fragment : Tarpit → Tarpit × Bytes
maze_fragment t =
    let (rng, digits) = maze_digits 16 t.rng in
    (record t { rng = rng }, codes "<a href=\"/" ++ (digits ++ codes "/\">x</a>\n"))

-- The bytes of `ngx_sentinel_drip_buf` that a tick can take.
abbrev drip_buf : Bytes
drip_buf = replicate tick_bytes b' '

-- The bytes that the tick hands over, cut at the bytes left, and the context behind them.
unfoldable pub next_chunk : Tarpit → Tarpit × Bytes
next_chunk t =
    let left = t.bytes_total - t.bytes_sent in
    let (t', fragment) = maze_fragment t in
    if t.maze then (t', take left fragment) else (t, take left drip_buf)

-- What a tick ends in: the request is finished, or the timer runs for so long.
pub data Tick : Type 0 where
  finish : Rc → Tick
  rearm : Tarpit → ℕ → Tick

-- The delay, bounded by the time to the deadline.
unfoldable pub wait_of : Tarpit → ℕ → ℕ
wait_of t now =
    if leb t.deadline now
    then t.delay_ms
    else if ltb t.delay_ms (t.deadline - now)
    then t.delay_ms
    else t.deadline - now

-- The output filter's answer, the state of the connection, and whether the write event can be
-- registered.
pub record TickEnv : Type 0 where
  pub now : ℕ
  pub now_after : ℕ
  pub gone : Bool
  pub sent : Rc
  pub write_event : Bool

-- The handler behind the output filter, by its answer.
unfoldable pub after_send : Tarpit → Bytes → TickEnv → Rc → Tick
after_send t chunk env error = finish error
after_send t chunk env again =
    if env.write_event then rearm t (wait_of t env.now_after) else finish error
after_send t chunk env _ =
    let t' = record t { bytes_sent = t.bytes_sent + length chunk } in
    if leb t'.bytes_total t'.bytes_sent || leb t'.deadline env.now_after
    then finish http_close
    else rearm t' (wait_of t' env.now_after)

-- `sentinel_tarpit_write_handler` with its context: what it hands to the output filter, and what the
-- tick ends in.
unfoldable pub write_handler : Tarpit → TickEnv → Bytes × Tick
write_handler t env =
    let (t', chunk) = next_chunk t in
    if leb t.deadline env.now || leb t.bytes_total t.bytes_sent
    then ([], finish http_close)
    else if env.gone
    then ([], finish http_close)
    else (chunk, after_send t' chunk env env.sent)
