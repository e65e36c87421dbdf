-- ===== src/Config/Merge.antt =====
-- What a configuration that loads looks like.
use nginx_http_sentinel_modu.Prelude.{ℕ, ◌*◌, ◌≤◌, ◌≡◌, ◌≢◌, ◌⊎◌, length}
use nginx_http_sentinel_modu.Prelude.Int.{ℤ, pos}
use nginx_http_sentinel_modu.Score.{score_max}
use nginx_http_sentinel_modu.Config

-- A member with a value in its bounds.
abbrev Within : ℤ → ℕ → ℕ → Type 0
Within v lo hi = (n : ℕ) × (v ≡ pos n) × (lo ≤ n) × (n ≤ hi)

-- A member with a value that is bounded below only.
abbrev IsAtLeast : ℤ → ℕ → Type 0
IsAtLeast v lo = (n : ℕ) × (v ≡ pos n) × (lo ≤ n)

-- What the request path relies on in a configuration that has loaded.
pub record IsSane (m : Config.MainRaw) (r : Config.LocRaw) : Type 0 where
  pub crowdsec : Within (r.value Config.w_crowdsec) 0 score_max
  pub cs_interval : Within (r.value Config.cs_interval) 1 3600
  pub cs_ttl : Within (r.value Config.cs_default_ttl) 60 86400
  pub cs_stale : Within (r.value Config.cs_stale_after) 30 86400
  pub cs_bytes : Within (r.value Config.cs_max_bytes) m.pagesize (64 * 1024 * 1024)
  pub redis :
      length (r.path Config.redis_host) ≢ 0
      → Within (r.value Config.redis_interval) 1 3600 × Within (r.value Config.redis_ttl) 60 86400
  pub sink :
      length (r.path Config.sink_path) ≢ 0
      → Within (r.value Config.sink_interval) 1 3600 × Within (r.value Config.sink_ttl) 60 86400
  pub conns : Within (r.value Config.tarpit_max_conns) 0 65536
  pub delay : Within (r.value Config.tarpit_delay) 100 60000
  pub bytes : Within (r.value Config.tarpit_bytes) 1 65536
  pub lifetime : Within (r.value Config.tarpit_max_lifetime) 1000 600000
  pub status :
      (r.value Config.block_status ≡ pos m.http_close)
      ⊎ Within (r.value Config.block_status) 400 599
  pub difficulty : Within (r.value Config.pow_difficulty) 1 32
  pub block_ttl : IsAtLeast (r.value Config.block_ttl) 0
  pub pow_ttl : IsAtLeast (r.value Config.pow_ttl) 1
