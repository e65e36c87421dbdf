-- ===== src/Handler.antt =====
-- The phase handlers of ngx_http_sentinel_module.c. The log lines are left out.
mod Tests
pub mod Enforce
pub mod Block
pub mod Record
pub mod Counts
use nginx_http_sentinel_modu.Prelude.{
  ℕ, ◌+◌, Bool, true, false, not, List, [], ◌∷◌, Option, none, some, ltb, leb, ◌==◌, ◌&&◌,
  if◌then◌else◌, length, Bytes,
}
use nginx_http_sentinel_modu.Nginx.{Rc, ok, error, done, declined, status, Request}
use nginx_http_sentinel_modu.Score.{Verdict, allow, challenge, tarpit, block, cs_ban}
use nginx_http_sentinel_modu.Shm.Zone.{Zone}
use nginx_http_sentinel_modu.Shm.Errrate.{errrate_record, softban_set}
use nginx_http_sentinel_modu.Ring.{Ring, redis_enqueue_ban, cssink_enqueue_ban}
use nginx_http_sentinel_modu.Tarpit.{
  TarpitConf, StartEnv, Started, refused, armed, finalized, rc_of, tarpit_start, http_close,
}
use nginx_http_sentinel_modu.Pow.{PowLib, PowConf, PowState, off, Dispatched, pow_dispatch}
use nginx_http_sentinel_modu.Signal.Config.{NginxLib, LocConf}
use nginx_http_sentinel_modu.Signal.Gather.{Zones, Ctx, get_ctx}
use nginx_http_sentinel_modu.Metrics.{metrics_record}

-- The state that the handlers share: the zones of the location, the tarpit counters, the two
-- rings, the Prometheus counters.
pub record Shared : Type 0 where
  pub zones : Zones
  pub conns : Option (List ℕ)
  pub push : Option Ring
  pub sink : Option Ring
  pub metrics : Option (List ℕ)

-- What a request comes away with: the rate limit, the flags of its context, the state of the
-- challenge and its cookie, and the tarpit.
pub record Outcome : Type 0 where
  pub rc : Rc
  pub limit_rate : Option ℕ
  pub throttled : Bool
  pub shielded : Bool
  pub pow : Dispatched
  pub tarpit : Started

-- What the rest of the process answers while a handler runs: the clocks, the worker, the
-- allocations.
pub record Env : Type 0 where
  pub now : ℕ
  pub now_msec : ℕ
  pub worker : ℕ
  pub ctx_alloc : Bool
  pub node_fits : Bool
  pub cookie_alloc : Bool
  pub page_alloc : Bool
  pub start : StartEnv
  pub strlen : ℕ

-- A request that the handler lets pass without doing anything to it.
abbrev pub pass : Outcome
pass = record {
  rc = declined;
  limit_rate = none;
  throttled = false;
  shielded = false;
  pow = record { rc = declined; pow_state = off; cookie = none };
  tarpit = refused declined;
}

-- `prc == NGX_DONE ? NGX_DONE : NGX_DECLINED`
abbrev done_or_declined : Rc → Rc
done_or_declined done = done
done_or_declined _ = declined

-- What the handler returns after sentinel_tarpit_start.
abbrev tarpit_rc : Rc → Rc
tarpit_rc done = done
tarpit_rc (status n) = status n
tarpit_rc _ = declined

-- The case of the tarpit verdict.
unfoldable pub enforce_tarpit : LocConf → TarpitConf → Env → Shared → Outcome × Shared
enforce_tarpit lcf tconf env s =
    let (started, conns') = tarpit_start tconf env.start s.conns env.worker env.now_msec in
    if ltb 0 lcf.throttle_rate
    then (record pass { limit_rate = some lcf.throttle_rate; throttled = true }, s)
    else if lcf.shield
    then (record pass { shielded = true }, s)
    else if tconf.max_conns == 0
    then (record pass { rc = http_close }, s)
    else (
      record pass { rc = tarpit_rc (rc_of started); tarpit = started },
      record s { conns = conns' },
    )

-- The soft-ban of the block verdict, if it is configured.
unfoldable pub block_softban : NginxLib → Request → LocConf → Env → Zones → Zones
block_softban lib r lcf env zs = elim zs.zone [
  | none ↦ zs
  | some z ↦
      let (rc, zone) =
        softban_set (some z) (lib.sha256 r.addr_text) env.now lcf.block_ttl env.node_fits in
      if ltb 0 lcf.block_ttl && ltb 0 (length r.addr_text) then record zs { zone = zone } else zs
]

-- Whether a ban is exported: the target is configured, the decision is this node's own, and the
-- client has an address.
unfoldable pub exports : Bytes → Bool → Bytes → Bool
exports target hit addr = ltb 0 (length target) && not hit && ltb 0 (length addr)

-- The case of the block verdict.
unfoldable pub enforce_block : NginxLib → Request → LocConf → Env → Bool → Shared → Outcome × Shared
enforce_block lib r lcf env hit s = (
  record pass { rc = status lcf.block_status },
  record {
    zones = block_softban lib r lcf env s.zones;
    conns = s.conns;
    push =
        if exports lcf.redis_host hit r.addr_text
        then redis_enqueue_ban env.strlen s.push r.addr_text cs_ban (env.now + lcf.redis_ttl)
        else s.push;
    sink =
        if exports lcf.cs_sink_path hit r.addr_text
        then cssink_enqueue_ban env.strlen s.sink r.addr_text cs_ban (env.now + lcf.cs_sink_ttl)
        else s.sink;
    metrics = s.metrics;
  },
)

-- The switch over the verdict.
unfoldable pub enforce :
    NginxLib
    → PowLib
    → Request
    → LocConf
    → PowConf
    → TarpitConf
    → Env
    → Verdict
    → Bool
    → Shared
    → Outcome × Shared
enforce lib plib r lcf pconf tconf env allow hit s = (pass, s)
enforce lib plib r lcf pconf tconf env challenge hit s =
    let d = pow_dispatch plib pconf r env.now env.cookie_alloc env.page_alloc in
    (record pass { rc = done_or_declined d.rc; pow = d }, s)
enforce lib plib r lcf pconf tconf env tarpit hit s = enforce_tarpit lcf tconf env s
enforce lib plib r lcf pconf tconf env block hit s = enforce_block lib r lcf env hit s

-- ngx_sentinel_preaccess_handler behind ngx_sentinel_get_ctx.
unfoldable pub dispatch :
    NginxLib
    → PowLib
    → Request
    → LocConf
    → PowConf
    → TarpitConf
    → Env
    → Option Ctx
    → Shared
    → Outcome × Shared
dispatch lib plib r lcf pconf tconf env none s = (pass, s)
dispatch lib plib r lcf pconf tconf env (some ctx) s =
    let counted = record s { metrics = metrics_record s.metrics (some ctx) lcf.shadow } in
    let out = enforce lib plib r lcf pconf tconf env ctx.verdict ctx.inputs.crowdsec_hit counted in
    if lcf.shadow then (pass, counted) else out

-- `ngx_sentinel_preaccess_handler`
unfoldable pub preaccess_handler :
    NginxLib
    → PowLib
    → Request
    → LocConf
    → PowConf
    → TarpitConf
    → Env
    → Option Ctx
    → Shared
    → Outcome × Shared
preaccess_handler lib plib r lcf pconf tconf env cached s =
    let (ctx, zs) = get_ctx lib cached env.ctx_alloc r lcf s.zones env.now in
    let out = dispatch lib plib r lcf pconf tconf env ctx (record s { zones = zs }) in
    if lcf.enabled then out else (pass, s)

-- `r->err_status != 0 ? r->err_status : r->headers_out.status`
unfoldable pub final_status : Request → ℕ
final_status r = if r.err_status == 0 then r.out_status else r.err_status

abbrev pub record_into : Bool → Option Zone → Bytes → ℕ → Bool → Option Zone
record_into b none k now fits = none
record_into b (some z) k now fits =
    let (reply, z') = errrate_record (some z) k now fits in if b then z' else some z

-- `ngx_sentinel_log_handler`
unfoldable pub log_handler : NginxLib → Request → LocConf → Env → Zones → Zones
log_handler lib r lcf env zs =
    let k = lib.sha256 r.addr_text in
    let vel_zone = record_into true zs.vel_zone k env.now env.node_fits in
    let zone = record_into (leb 400 (final_status r)) zs.zone k env.now env.node_fits in
    if not lcf.enabled
    then zs
    else if length r.addr_text == 0
    then zs
    else record zs { vel_zone = vel_zone; zone = zone }
