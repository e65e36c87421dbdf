-- ===== src/Signal/Tests.antt =====
-- The theorems on the signals at concrete requests.
use nginx_http_sentinel_modu.Prelude.{
  ◌≡◌, ◌↔◌, refl, true, false, [], ◌∷◌, some, none, arith, codes, length, bytes_eq, take, replicate,
  length-replicate, if◌then◌else◌, ltb, ◌-◌, ◌≢◌,
}
use nginx_http_sentinel_modu.Prelude.Int.{pos}
use nginx_http_sentinel_modu.Nginx.{ok, Request, Header, inet}
use nginx_http_sentinel_modu.Score.{Weights, block, cs_ban}
use nginx_http_sentinel_modu.Shm.Zone.{Node, Zone, find_node}
use nginx_http_sentinel_modu.Signal.Ja4h.{
  PrintLib, canlen, bin_len, overrun, canonical, hex_digest, zero_hash, ja4h_compute,
}
use nginx_http_sentinel_modu.Signal.Ja4h.Canon.{canonical_text, ja4h_text}
use nginx_http_sentinel_modu.Signal.Config.{NginxLib, LocConf}
use nginx_http_sentinel_modu.Signal.Agent.{ua_contains}
use nginx_http_sentinel_modu.Signal.Agent.Substring.{Occurs, ua_contains_iff}
use nginx_http_sentinel_modu.Signal.Shape.{header_signal}
use nginx_http_sentinel_modu.Signal.Shape.Headers.{Anomaly, header_signal_iff}
use nginx_http_sentinel_modu.Signal.Gather.{Zones, compute_ctx, zero_inputs}
use nginx_http_sentinel_modu.Signal.Gather.Hits.{banned_blocks}

abbrev print_lib : PrintLib
print_lib = record {
  http_get = 2;
  http_post = 8;
  http_put = 16;
  http_delete = 32;
  http_head = 4;
  http_options = 512;
  http_patch = 16384;
  version_20 = 2000;
  version_11 = 1001;
  strncasecmp = λ s t n. if bytes_eq (take n s) (take n t) then pos 0 else pos 1;
  tolower = λ c. c;
  sort = λ cmp names. names;
  sha256 = λ b. replicate 32 (length b);
}

abbrev lib : NginxLib
lib = record {
  complex_value = λ r s. some s;
  cidr_match = λ s cs. ok;
  atoi = λ b. some (length b);
  strncasecmp_eq = λ s t n. bytes_eq (take n s) (take n t);
  sha256 = λ b. b;
  print = print_lib;
}

abbrev host : Header
host = record { hash = 1; key = codes "host"; value = codes "a.example" }

-- A crawler's User-Agent, a decoy path, and two Host headers in two parts of the list.
abbrev request : Request
request = record {
  uri = codes "/.git/config";
  method = 2;
  http_version = 1001;
  headers = (host ∷ []) ∷ (host ∷ []) ∷ [];
  host = some (codes "a.example");
  content_length = none;
  transfer_encoding = none;
  user_agent = some (codes "Googlebot/2.1");
  accept = none;
  accept_language = none;
  accept_encoding = none;
  addr_text = codes "192.0.2.1";
  sockaddr = some (inet (192 ∷ 0 ∷ 2 ∷ 1 ∷ []));
  err_status = 0;
  out_status = 200;
}

abbrev weights : Weights
weights = record {
  errrate = pos 2;
  blocked = pos 40;
  scanner = pos 30;
  bot = pos 15;
  header = pos 10;
  honeypot = pos 50;
  velocity = pos 20;
  asn = pos 10;
  coherence = pos 10;
  ja3 = pos 40;
  ja4 = pos 40;
  ja4t = pos 40;
  c2ip = pos 60;
  crowdsec = pos 100;
}

abbrev conf : LocConf
conf = record {
  enabled = true;
  shadow = false;
  weights = weights;
  threshold = record { challenge = pos 30; tarpit = pos 60; block = pos 80 };
  decoy_paths = codes "/wp-old" ∷ codes "/.git" ∷ [];
  allow_cidrs = codes "192.0.2.0/24" ∷ [];
  asn_source = none;
  asn_list = [];
  ja3_source = none;
  ja3_list = [];
  ja4_source = none;
  ja4_list = [];
  ja4t_source = none;
  ja4t_list = [];
  c2ip_tree = none;
  c2ip_tree6 = none;
  block_status = 403;
  block_ttl = 600;
  throttle_rate = 0;
  shield = false;
  redis_host = [];
  redis_ttl = 600;
  cs_sink_path = [];
  cs_sink_ttl = 600;
  resolver = false;
}

-- The ban table with the client's address.
abbrev banned : Node
banned = record {
  key = codes "192.0.2.1";
  blocked_until = 900;
  last_seen = 90;
  event_head = 0;
  event_count = 0;
  cs_generation = 1;
  cs_action = cs_ban;
  redis_pulled = 0;
  events = [];
}

abbrev table : Zone
table = record { interval = 60; block = 0; threshold = 0; cs_generation = 1; queue = banned ∷ [] }

abbrev zones : Zones
zones = record { zone = none; vel_zone = none; fcrdns_zone = none; cs_zone = some table }

ua_contains_iff_example :
    (ua_contains (codes "x sqlmap/1") (codes "sqlmap") ≡ true)
    ↔ Occurs (codes "x sqlmap/1") (codes "sqlmap")
ua_contains_iff_example =
    ua_contains_iff (codes "x sqlmap/1") (codes "sqlmap")
      (refl, (refl, (refl, (refl, (refl, (refl, tt)))))) (omega arith)

header_signal_iff_example :
    ((header_signal lib (some request) zero_inputs).header_anomaly ≡ true) ↔ Anomaly lib request
header_signal_iff_example = header_signal_iff lib request zero_inputs

banned_blocks_example : (compute_ctx lib request conf zones 100 zero_inputs).0.verdict ≡ block
unfolding find_node bytes_eq
banned_blocks_example =
    banned_blocks lib request conf zones table 100 zero_inputs refl (tt, tt) (omega arith) refl
      (omega arith)

ja4h_text_example :
    let text = canonical_text print_lib request in
    (ja4h_compute print_lib request ≡ (
      if ltb (length text) (canlen - 1)
      then hex_digest bin_len (print_lib.sha256 text)
      else zero_hash))
    × (length (ja4h_compute print_lib request) ≡ 24)
    × (canonical print_lib request ≢ overrun)
ja4h_text_example = ja4h_text print_lib request (λ b. length-replicate 32 (length b))
