-- ===== src/Signal/Gather.antt =====
-- ngx_sentinel_get_ctx of ngx_http_sentinel_module.c: all signals in their order, then the score
-- and the verdict.
pub mod Hits
use nginx_http_sentinel_modu.Prelude.{ℕ, Bool, true, false, List, [], Option, none, some, Bytes}
use nginx_http_sentinel_modu.Prelude.Int.{ℤ}
use nginx_http_sentinel_modu.Nginx.{Request}
use nginx_http_sentinel_modu.Score.{Inputs, Verdict, compute, to_verdict}
use nginx_http_sentinel_modu.Shm.Zone.{Zone}
use nginx_http_sentinel_modu.Signal.Ja4h.{ja4h_compute}
use nginx_http_sentinel_modu.Signal.Config.{NginxLib, LocConf}
use nginx_http_sentinel_modu.Signal.Lists.{
  honeypot_signal, allowlist_signal, asn_signal, c2ip_signal, ja3_signal, ja4_signal, ja4t_signal,
}
use nginx_http_sentinel_modu.Signal.Agent.{botua_signal}
use nginx_http_sentinel_modu.Signal.Shape.{header_signal, coherence_signal}
use nginx_http_sentinel_modu.Signal.Zones.{
  errrate_signal, velocity_signal, crowdsec_signal, fcrdns_signal,
}

-- The zones a location is bound to; `none` is NULL.
pub record Zones : Type 0 where
  pub zone : Option Zone
  pub vel_zone : Option Zone
  pub fcrdns_zone : Option Zone
  pub cs_zone : Option Zone

-- `ngx_sentinel_ctx_t`, with `resolving` for an asynchronous DNS lookup that was started.
pub record Ctx : Type 0 where
  pub inputs : Inputs
  pub score : ℤ
  pub verdict : Verdict
  pub resolving : Bool

-- The signals that read the request and the configuration only, in the order of the calls.
unfoldable pub gather_request : NginxLib → Request → LocConf → Inputs → Inputs
gather_request lib r lcf i =
    let i = botua_signal r i in
    let i = header_signal lib (some r) i in
    let i = honeypot_signal (some r) (some lcf) i in allowlist_signal lib (some r) (some lcf) i

unfoldable pub gather_lists : NginxLib → Request → LocConf → Inputs → Inputs
gather_lists lib r lcf i =
    let i = asn_signal lib (some r) (some lcf) i in
    let i = c2ip_signal (some r) (some lcf) i in
    let i = ja3_signal lib (some r) (some lcf) i in
    let i = ja4_signal lib (some r) (some lcf) i in
    let i = ja4t_signal lib (some r) (some lcf) i in coherence_signal (some r) i

-- The context as ngx_pcalloc leaves it.
abbrev pub zero_inputs : Inputs
zero_inputs = record {
  ja4h = [];
  errrate_count = 0;
  errrate_blocked = false;
  scanner_path = false;
  bot_ua = false;
  known_good_ua = false;
  fcrdns_verified = false;
  fcrdns_spoofed = false;
  header_anomaly = false;
  honeypot = false;
  velocity_exceeded = false;
  datacenter_asn = false;
  ua_incoherent = false;
  ja3_flagged = false;
  ja4_flagged = false;
  ja4t_flagged = false;
  c2ip_flagged = false;
  allowlisted = false;
  crowdsec_hit = false;
  crowdsec_action = 0;
}

-- The calls of ngx_sentinel_get_ctx after the allocation.
unfoldable pub compute_ctx : NginxLib → Request → LocConf → Zones → ℕ → Inputs → Ctx × Zones
compute_ctx lib r lcf zs now i0 =
    let e = errrate_signal lib r zs.zone now (record i0 { ja4h = ja4h_compute lib.print r }) in
    let v = velocity_signal lib (some r) zs.vel_zone now (gather_request lib r lcf e.0) in
    let f = fcrdns_signal lib (some r) (some lcf) zs.fcrdns_zone now (gather_lists lib r lcf v.0) in
    let c = crowdsec_signal lib r zs.cs_zone now f.0 in
    let score = compute (some c.0) (some lcf.weights) in
    (
      record {
        inputs = c.0;
        score = score;
        verdict = to_verdict score lcf.threshold;
        resolving = f.2;
      },
      record { zone = e.1; vel_zone = v.1; fcrdns_zone = f.1; cs_zone = c.1 },
    )

-- `ngx_sentinel_get_ctx`. A context that the request already has is returned; `alloc` is whether
-- the allocation of a new one succeeds.
unfoldable pub get_ctx :
    NginxLib → Option Ctx → Bool → Request → LocConf → Zones → ℕ → Option Ctx × Zones
get_ctx lib (some ctx) alloc r lcf zs now = (some ctx, zs)
get_ctx lib none false r lcf zs now = (none, zs)
get_ctx lib none true r lcf zs now =
    let (ctx, zs') = compute_ctx lib r lcf zs now zero_inputs in (some ctx, zs')
