-- ===== src/Signal/Config.antt =====
-- The location configuration of sentinel.h that the request path reads, and the functions of nginx
-- and OpenSSL that it calls.
use nginx_http_sentinel_modu.Prelude.{ℕ, Bool, List, Option, Bytes}
use nginx_http_sentinel_modu.Nginx.{Rc, SockAddr, Request}
use nginx_http_sentinel_modu.Signal.Ja4h.{PrintLib}
use nginx_http_sentinel_modu.Score.{Weights, Threshold}

-- `ngx_http_complex_value` (`none` is not NGX_OK), `ngx_cidr_match`, `ngx_atoi` (`none` is
-- NGX_ERROR), `ngx_strncasecmp (s, t, n) == 0`, `SHA256`, and what the JA4H fingerprint calls.
pub record NginxLib : Type 0 where
  pub complex_value : Request → Bytes → Option Bytes
  pub cidr_match : SockAddr → List Bytes → Rc
  pub atoi : Bytes → Option ℕ
  pub strncasecmp_eq : Bytes → Bytes → ℕ → Bool
  pub sha256 : Bytes → Bytes
  pub print : PrintLib

-- `ngx_sentinel_loc_conf_t` without the zones, which are state. An `ngx_array_t` is a list, a
-- complex value that is not configured is `none`, and a radix tree is what
-- `ngx_radix32tree_find` or `ngx_radix128tree_find` answers for an address.
pub record LocConf : Type 0 where
  pub enabled : Bool
  pub shadow : Bool
  pub weights : Weights
  pub threshold : Threshold
  pub decoy_paths : List Bytes
  pub allow_cidrs : List Bytes
  pub asn_source : Option Bytes
  pub asn_list : List ℕ
  pub ja3_source : Option Bytes
  pub ja3_list : List Bytes
  pub ja4_source : Option Bytes
  pub ja4_list : List Bytes
  pub ja4t_source : Option Bytes
  pub ja4t_list : List Bytes
  pub c2ip_tree : Option (Bytes → ℕ)
  pub c2ip_tree6 : Option (Bytes → ℕ)
  pub block_status : ℕ
  pub block_ttl : ℕ
  pub throttle_rate : ℕ
  pub shield : Bool
  pub redis_host : Bytes
  pub redis_ttl : ℕ
  pub cs_sink_path : Bytes
  pub cs_sink_ttl : ℕ
  pub resolver : Bool
