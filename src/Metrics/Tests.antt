-- ===== src/Metrics/Tests.antt =====
-- The theorems on the counters at a blocked request with two signals.
use nginx_http_sentinel_modu.Prelude.{ℕ, ◌+◌, ◌%◌, ◌^◌, ◌≡◌, true, false, List, some}
use nginx_http_sentinel_modu.Prelude.Int.{pos}
use nginx_http_sentinel_modu.Score.{block}
use nginx_http_sentinel_modu.Signal.Gather.{Ctx, zero_inputs}
use nginx_http_sentinel_modu.Metrics.{Metric, metrics_record, metric_get}
use nginx_http_sentinel_modu.Metrics.Counts.{
  IsCounters, counters, counters_IsCounters, adds, metrics_record-adds,
}

abbrev blocked : Ctx
blocked = record {
  inputs = record zero_inputs { honeypot = true; errrate_count = 3 };
  score = pos 93;
  verdict = block;
  resolving = false;
}

metrics_record-adds_example :
    (m' : List ℕ) × (metrics_record (some counters) (some blocked) true ≡ some m')
    × IsCounters m'
    × ((k : Metric)
        → metric_get (some m') k ≡ (metric_get (some counters) k + adds blocked true k) % 2 ^ 64)
metrics_record-adds_example = metrics_record-adds counters blocked true counters_IsCounters
