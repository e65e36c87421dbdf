-- ===== src/Metrics/Balance.antt =====
-- The counters after a sequence of requests.
use nginx_http_sentinel_modu.Prelude.{
  ℕ, ◌+◌, ◌%◌, ◌^◌, ◌≡◌, Bool, List, [], ◌∷◌, Option, some, arith, length,
}
use nginx_http_sentinel_modu.Metrics.Counts.{IsCounters, adds, metrics_record-adds, verdict_code-lt}
use nginx_http_sentinel_modu.Signal.Gather.{Ctx}
use nginx_http_sentinel_modu.Metrics.{
  requests, verdict_allow, verdict_challenge, verdict_tarpit, verdict_block, index, metrics_record,
  metric_get,
}

abbrev pub record_all : List (Ctx × Bool) → Option (List ℕ) → Option (List ℕ)
record_all [] m = m
record_all ((c, s) ∷ rs) m = record_all rs (metrics_record m (some c) s)

abbrev pub verdict_sum : Option (List ℕ) → ℕ
verdict_sum m =
    metric_get m verdict_allow
    + metric_get m verdict_challenge
    + metric_get m verdict_tarpit
    + metric_get m verdict_block

verdict-adds :
    (c : Ctx) (s : Bool)
    → adds c s verdict_allow
        + adds c s verdict_challenge
        + adds c s verdict_tarpit
        + adds c s verdict_block
      ≡ 1
unfolding adds
verdict-adds c s = ground (arith, verdict_code-lt c.verdict)

-- When the verdict counters add up to the number of requests, modulo 2^64, they still do so after
-- any sequence of requests: every request is counted with exactly one verdict.
pub verdicts_balance :
    (rs : List (Ctx × Bool)) (m : List ℕ)
    → IsCounters m
    → verdict_sum (some m) % 2 ^ 64 ≡ metric_get (some m) requests % 2 ^ 64
    → let m' = record_all rs (some m) in verdict_sum m' % 2 ^ 64 ≡ metric_get m' requests % 2 ^ 64
unfolding adds
verdicts_balance [] m w h = h
verdicts_balance ((c, s) ∷ rs) m w h =
    let (m', e, w', g) = metrics_record-adds m c s w in
    let one = verdict-adds c s in
    let kept : verdict_sum (some m') % 2 ^ 64 ≡ metric_get (some m') requests % 2 ^ 64 = omega (
      arith,
      h,
      one,
      g requests,
      g verdict_allow,
      g verdict_challenge,
      g verdict_tarpit,
      g verdict_block,
    ) in
    rw e (verdicts_balance rs m' w' kept)

pub requests_count :
    (rs : List (Ctx × Bool)) (m : List ℕ)
    → IsCounters m
    → metric_get (record_all rs (some m)) requests
      ≡ (metric_get (some m) requests + length rs) % 2 ^ 64
unfolding adds metric_get
requests_count [] m w = omega (arith, w.range (index requests))
requests_count ((c, s) ∷ rs) m w =
    let (m', e, w', g) = metrics_record-adds m c s w in
    rw e (omega (arith, g requests, requests_count rs m' w'))
