-- ===== src/Metrics.antt =====
-- sentinel_metrics.c: the counters behind the Prometheus page. A NULL array is `none`; one counter
-- is bumped in one atomic step.
mod Tests
pub mod Counts
pub mod Balance
use nginx_http_sentinel_modu.Prelude.{
  ℕ, suc, ◌+◌, ◌%◌, ◌^◌, Bool, true, false, List, [], ◌∷◌, Option, none, some, ltb, ◌&&◌, ◌||◌,
  if◌then◌else◌, get_or, set,
}
use nginx_http_sentinel_modu.Score.{Inputs, Verdict, allow, challenge, tarpit, block}
use nginx_http_sentinel_modu.Signal.Gather.{Ctx}
use nginx_http_sentinel_modu.Tarpit.{tarpit_sum}

-- `ngx_sentinel_metric_e`, in its order.
pub data Metric : Type 0 where
  requests verdict_allow verdict_challenge verdict_tarpit verdict_block : Metric
  sig_errrate sig_blocked sig_scanner sig_bot sig_header sig_honeypot sig_velocity : Metric
  sig_asn sig_coherence sig_crowdsec sig_ja3 sig_ja4 sig_ja4t sig_c2ip shadow : Metric

-- The value of a metric as an index.
unfoldable pub index : Metric → ℕ
index requests = 0
index verdict_allow = 1
index verdict_challenge = 2
index verdict_tarpit = 3
index verdict_block = 4
index sig_errrate = 5
index sig_blocked = 6
index sig_scanner = 7
index sig_bot = 8
index sig_header = 9
index sig_honeypot = 10
index sig_velocity = 11
index sig_asn = 12
index sig_coherence = 13
index sig_crowdsec = 14
index sig_ja3 = 15
index sig_ja4 = 16
index sig_ja4t = 17
index sig_c2ip = 18
index shadow = 19

-- `NGX_SENTINEL_M_MAX`
abbrev pub metric_max : ℕ
metric_max = 20

-- The value of a verdict in `ngx_sentinel_verdict_e`.
unfoldable pub verdict_code : Verdict → ℕ
verdict_code allow = 0
verdict_code challenge = 1
verdict_code tarpit = 2
verdict_code block = 3

-- `sentinel_metric_inc`, at an index.
unfoldable pub metric_inc : ℕ → List ℕ → List ℕ
metric_inc i m = set m i (suc (get_or m i 0) % 2 ^ 64)

unfoldable pub inc_if : Bool → ℕ → List ℕ → List ℕ
inc_if b i m = if b then metric_inc i m else m

-- The signals and their counters, in the order of the source.
unfoldable pub signals : Inputs → List (Bool × ℕ)
signals i =
    (ltb 0 i.errrate_count, index sig_errrate)
    ∷ (i.errrate_blocked, index sig_blocked)
    ∷ (i.scanner_path, index sig_scanner)
    ∷ (i.bot_ua, index sig_bot)
    ∷ (i.header_anomaly, index sig_header)
    ∷ (i.honeypot, index sig_honeypot)
    ∷ (i.velocity_exceeded, index sig_velocity)
    ∷ (i.datacenter_asn, index sig_asn)
    ∷ (i.c2ip_flagged, index sig_c2ip)
    ∷ (i.ja3_flagged, index sig_ja3)
    ∷ (i.ja4_flagged, index sig_ja4)
    ∷ (i.ja4t_flagged, index sig_ja4t)
    ∷ (i.ua_incoherent, index sig_coherence)
    ∷ (i.crowdsec_hit, index sig_crowdsec)
    ∷ []

unfoldable pub inc_all : List (Bool × ℕ) → List ℕ → List ℕ
inc_all [] m = m
inc_all ((b, i) ∷ es) m = inc_all es (inc_if b i m)

-- A verdict that shadow mode does not carry out.
unfoldable pub would_block : Verdict → Bool
would_block tarpit = true
would_block block = true
would_block _ = false

unfoldable pub record_metrics : List ℕ → Ctx → Bool → List ℕ
record_metrics m ctx in_shadow =
    let counted =
      metric_inc (index verdict_allow + verdict_code ctx.verdict) (metric_inc (index requests) m) in
    inc_if (in_shadow && would_block ctx.verdict) (index shadow)
      (inc_all (signals ctx.inputs) counted)

-- `sentinel_metrics_record`
unfoldable pub metrics_record : Option (List ℕ) → Option Ctx → Bool → Option (List ℕ)
metrics_record none ctx in_shadow = none
metrics_record (some m) none in_shadow = some m
metrics_record (some m) (some ctx) in_shadow = some (record_metrics m ctx in_shadow)

-- `sentinel_metric_get`
unfoldable pub metric_get : Option (List ℕ) → Metric → ℕ
metric_get none k = 0
metric_get (some m) k = get_or m (index k) 0

-- `sentinel_tarpit_active`
unfoldable tarpit_active : Option (List ℕ) → ℕ
tarpit_active none = 0
tarpit_active (some conns) = tarpit_sum conns % 2 ^ 64
