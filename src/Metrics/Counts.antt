-- ===== src/Metrics/Counts.antt =====
-- What one request adds to each counter.
use nginx_http_sentinel_modu.Prelude.{
  replicate, length-replicate, zero, ℕ, suc, ◌+◌, ◌%◌, ◌^◌, ◌<◌, ◌≡◌, ◌≢◌, inl, inr, refl, sym, ap,
  ◌∙◌, Bool, true, false, List, [], ◌∷◌, some, arith, ltb, ◌==◌, ==_iff, ◌&&◌, if◌then◌else◌,
  length, length-set, get_or, get_or-set_self, get_or-set_ne, Bool-cases,
}
use nginx_http_sentinel_modu.Score.{Verdict, allow, challenge, tarpit, block}
use nginx_http_sentinel_modu.Signal.Gather.{Ctx}
use nginx_http_sentinel_modu.Metrics.{
  Metric, requests, verdict_allow, verdict_challenge, verdict_tarpit, verdict_block, sig_errrate,
  sig_blocked, sig_scanner, sig_bot, sig_header, sig_honeypot, sig_velocity, sig_asn, sig_coherence,
  sig_crowdsec, sig_ja3, sig_ja4, sig_ja4t, sig_c2ip, shadow, index, metric_max, verdict_code,
  metric_inc, inc_if, signals, inc_all, would_block, record_metrics, metrics_record, metric_get,
}

abbrev as_count : Bool → ℕ
as_count b = if b then 1 else 0

-- Counters in place and in range.
pub record IsCounters (m : List ℕ) : Type 0 where
  pub size : length m ≡ metric_max
  pub range : (k : ℕ) → get_or m k 0 < 2 ^ 64

-- A zeroed array.
abbrev pub counters : List ℕ
counters = replicate metric_max 0

get_or-replicate : (n k : ℕ) → ◌≡◌ {A = ℕ} (get_or (replicate n 0) k 0) 0
get_or-replicate zero k = refl
get_or-replicate (suc n) zero = refl
get_or-replicate (suc n) (suc k) = get_or-replicate n k

pub counters_IsCounters : IsCounters counters
counters_IsCounters = record {
  size = length-replicate {A = ℕ} metric_max 0;
  range = λ k. omega (arith, get_or-replicate metric_max k);
}

inc-get :
    (i k : ℕ) (m : List ℕ)
    → i < metric_max
    → IsCounters m
    → get_or (metric_inc i m) k 0 ≡ (get_or m k 0 + (if k == i then 1 else 0)) % 2 ^ 64
unfolding metric_inc
inc-get i k m h w = elim (Bool-cases (k == i)) [
  | inl e ↦
      let same : k ≡ i = (==_iff k i).0 e in
      let at = get_or-set_self m i (suc (get_or m i 0) % 2 ^ 64) 0 (omega (arith, w.size)) in
      let plus : (get_or m i 0 + 1) % 2 ^ 64 ≡ suc (get_or m i 0) % 2 ^ 64 = omega arith in
      rw e (rw same (at ∙ sym plus))
  | inr e ↦
      let ne : i ≢ k = λ x. absurd (ground arith) in
      let kept : (get_or m k 0 + 0) % 2 ^ 64 ≡ get_or m k 0 = omega (arith, w.range k) in
      rw (e, get_or-set_ne m {i = i} {j = k} (suc (get_or m i 0) % 2 ^ 64) 0 ne) (sym kept)
]

inc-IsCounters : (i : ℕ) (m : List ℕ) → i < metric_max → IsCounters m → IsCounters (metric_inc i m)
unfolding metric_inc
inc-IsCounters i m h w = record {
  size = length-set m i (suc (get_or m i 0) % 2 ^ 64) ∙ w.size;
  range = λ k. omega (arith, inc-get i k m h w);
}

-- What a conditional increment and a list of them add at an index.
abbrev pub share : ℕ → Bool → ℕ → ℕ
share k b i = if k == i then as_count b else 0

abbrev pub total : ℕ → List (Bool × ℕ) → ℕ
total k [] = 0
total k ((b, i) ∷ es) = share k b i + total k es

abbrev InRange : List (Bool × ℕ) → Type 0
InRange [] = Unit
InRange ((b, i) ∷ es) = (i < metric_max) × InRange es

-- Counters after some increments: what each index gained.
pub record Gained (m : List ℕ) (gain : ℕ → ℕ) (m' : List ℕ) : Type 0 where
  pub counters : IsCounters m'
  pub gains : (k : ℕ) → get_or m' k 0 ≡ (get_or m k 0 + gain k) % 2 ^ 64

inc_if-Gained :
    (b : Bool) (i : ℕ) (m : List ℕ)
    → i < metric_max
    → IsCounters m
    → Gained m (λ k. share k b i) (inc_if b i m)
unfolding inc_if
inc_if-Gained true i m h w = record {
  counters = inc-IsCounters i m h w;
  gains = λ k. inc-get i k m h w;
}
inc_if-Gained false i m h w = record { counters = w; gains = λ k. ground (arith, w.range k) }

Gained-then :
    (m m' m'' : List ℕ) (f g : ℕ → ℕ)
    → Gained m f m'
    → Gained m' g m''
    → Gained m (λ k. f k + g k) m''
Gained-then m m' m'' f g a b = record {
  counters = b.counters;
  gains = λ k. omega (arith, a.gains k, b.gains k);
}

inc_all-Gained :
    (es : List (Bool × ℕ)) (m : List ℕ)
    → InRange es
    → IsCounters m
    → Gained m (λ k. total k es) (inc_all es m)
unfolding inc_all
inc_all-Gained [] m h w = record { counters = w; gains = λ k. omega (arith, w.range k) }
inc_all-Gained ((b, i) ∷ es) m h w =
    let one = inc_if-Gained b i m h.0 w in
    Gained-then m (inc_if b i m) _ _ _ one (inc_all-Gained es (inc_if b i m) h.1 one.counters)

-- What a request adds to a counter: one to the requests and to its verdict, one to each signal that
-- fired, one to the shadow counter if shadow mode keeps a verdict from being carried out.
unfoldable pub adds : Ctx → Bool → Metric → ℕ
adds c s requests = 1
adds c s verdict_allow = as_count (verdict_code c.verdict == 0)
adds c s verdict_challenge = as_count (verdict_code c.verdict == 1)
adds c s verdict_tarpit = as_count (verdict_code c.verdict == 2)
adds c s verdict_block = as_count (verdict_code c.verdict == 3)
adds c s sig_errrate = as_count (ltb 0 c.inputs.errrate_count)
adds c s sig_blocked = as_count c.inputs.errrate_blocked
adds c s sig_scanner = as_count c.inputs.scanner_path
adds c s sig_bot = as_count c.inputs.bot_ua
adds c s sig_header = as_count c.inputs.header_anomaly
adds c s sig_honeypot = as_count c.inputs.honeypot
adds c s sig_velocity = as_count c.inputs.velocity_exceeded
adds c s sig_asn = as_count c.inputs.datacenter_asn
adds c s sig_coherence = as_count c.inputs.ua_incoherent
adds c s sig_crowdsec = as_count c.inputs.crowdsec_hit
adds c s sig_ja3 = as_count c.inputs.ja3_flagged
adds c s sig_ja4 = as_count c.inputs.ja4_flagged
adds c s sig_ja4t = as_count c.inputs.ja4t_flagged
adds c s sig_c2ip = as_count c.inputs.c2ip_flagged
adds c s shadow = as_count (s && would_block c.verdict)

-- All the increments of one request.
abbrev events : Ctx → Bool → List (Bool × ℕ)
events c s =
    (true, index requests) ∷ (true, index verdict_allow + verdict_code c.verdict) ∷ signals c.inputs

pub verdict_code-lt : (v : Verdict) → verdict_code v < 4
unfolding verdict_code
verdict_code-lt allow = omega arith
verdict_code-lt challenge = omega arith
verdict_code-lt tarpit = omega arith
verdict_code-lt block = omega arith

total-adds :
    (c : Ctx) (s : Bool) (k : Metric)
    → total (index k) (events c s) + share (index k) (s && would_block c.verdict) (index shadow)
      ≡ adds c s k
unfolding signals index adds
total-adds c s requests = ground (arith, verdict_code-lt c.verdict)
total-adds c s verdict_allow = ground (arith, verdict_code-lt c.verdict)
total-adds c s verdict_challenge = ground (arith, verdict_code-lt c.verdict)
total-adds c s verdict_tarpit = ground (arith, verdict_code-lt c.verdict)
total-adds c s verdict_block = ground (arith, verdict_code-lt c.verdict)
total-adds c s sig_errrate = ground (arith, verdict_code-lt c.verdict)
total-adds c s sig_blocked = ground (arith, verdict_code-lt c.verdict)
total-adds c s sig_scanner = ground (arith, verdict_code-lt c.verdict)
total-adds c s sig_bot = ground (arith, verdict_code-lt c.verdict)
total-adds c s sig_header = ground (arith, verdict_code-lt c.verdict)
total-adds c s sig_honeypot = ground (arith, verdict_code-lt c.verdict)
total-adds c s sig_velocity = ground (arith, verdict_code-lt c.verdict)
total-adds c s sig_asn = ground (arith, verdict_code-lt c.verdict)
total-adds c s sig_coherence = ground (arith, verdict_code-lt c.verdict)
total-adds c s sig_crowdsec = ground (arith, verdict_code-lt c.verdict)
total-adds c s sig_ja3 = ground (arith, verdict_code-lt c.verdict)
total-adds c s sig_ja4 = ground (arith, verdict_code-lt c.verdict)
total-adds c s sig_ja4t = ground (arith, verdict_code-lt c.verdict)
total-adds c s sig_c2ip = ground (arith, verdict_code-lt c.verdict)
total-adds c s shadow = ground (arith, verdict_code-lt c.verdict)

shadow-lt : index shadow < metric_max
unfolding index
shadow-lt = omega arith

events-InRange : (c : Ctx) (s : Bool) → InRange (events c s)
unfolding signals index
events-InRange c s = ground (arith, verdict_code-lt c.verdict)

-- One request adds to each counter, modulo 2^64, what its context says: one to the requests and to
-- its verdict, one to each signal that fired, and one to the shadow counter when shadow mode keeps
-- a tarpit or a block from being carried out. The counters stay in place and in range.
pub metrics_record-adds :
    (m : List ℕ) (c : Ctx) (s : Bool)
    → IsCounters m
    → (m' : List ℕ) × (metrics_record (some m) (some c) s ≡ some m')
      × IsCounters m'
      × ((k : Metric) → metric_get (some m') k ≡ (metric_get (some m) k + adds c s k) % 2 ^ 64)
unfolding metrics_record record_metrics metric_get inc_all inc_if
metrics_record-adds m c s w =
    let a = inc_all-Gained (events c s) m (events-InRange c s) w in
    let m1 = inc_all (events c s) m in
    let b = inc_if-Gained (s && would_block c.verdict) (index shadow) m1 shadow-lt a.counters in
    let all = Gained-then m m1 (record_metrics m c s) _ _ a b in
    (
      record_metrics m c s,
      refl,
      all.counters,
      (λ k. all.gains (index k) ∙ ap (λ x. (get_or m (index k) 0 + x) % 2 ^ 64) (total-adds c s k)),
    )
