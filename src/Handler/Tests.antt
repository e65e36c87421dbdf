-- ===== src/Handler/Tests.antt =====
-- The theorems on enforcement at a concrete request.
use nginx_http_sentinel_modu.Prelude.{
  List, ◌+◌, ◌%◌, ◌^◌, ◌≤◌, ◌<◌, replicate, length-replicate, arith, ◌++◌, ◌≡◌, refl, true, false,
  [], ◌∷◌, some, none, codes, length, if◌then◌else◌, bytes_eq, take,
}
use nginx_http_sentinel_modu.Prelude.Int.{pos}
use nginx_http_sentinel_modu.Shm.Zone.{Zone}
use nginx_http_sentinel_modu.Shm.Errrate.{errrate_lookup}
use nginx_http_sentinel_modu.Shm.Errrate.Track.{IsSound}
use nginx_http_sentinel_modu.Ring.{Entry, used, push_ring, empty_entry, Ring}
use nginx_http_sentinel_modu.Ring.Fifo.{IsRing, queue}
use nginx_http_sentinel_modu.Nginx.{status, busy, ok, Request, Header, inet}
use nginx_http_sentinel_modu.Handler.Block.{local_block}
use nginx_http_sentinel_modu.Handler.{log_handler, final_status, Shared, Env, dispatch}
use nginx_http_sentinel_modu.Handler.Record.{Recorded, log_handler_records}
use nginx_http_sentinel_modu.Prelude.Int.{pos}
use nginx_http_sentinel_modu.Score.{Weights, block, cs_ban}
use nginx_http_sentinel_modu.Signal.Ja4h.{PrintLib}
use nginx_http_sentinel_modu.Signal.Config.{NginxLib, LocConf}
use nginx_http_sentinel_modu.Signal.Gather.{Ctx, zero_inputs, Zones}
use nginx_http_sentinel_modu.Tarpit.{TarpitConf}
use nginx_http_sentinel_modu.Pow.{PowLib, PowConf}
use nginx_http_sentinel_modu.Metrics.{requests, metric_get}
use nginx_http_sentinel_modu.Metrics.Counts.{counters, counters_IsCounters}
use nginx_http_sentinel_modu.Metrics.Balance.{verdict_sum}
use nginx_http_sentinel_modu.Handler.Counts.{Call, handle_all, counted_all, handler_counts}
use nginx_http_sentinel_modu.Handler.Enforce.{no_ban_loop}

abbrev print_lib : PrintLib
print_lib = record {
  http_get = 2;
  http_post = 8;
  http_put = 16;
  http_delete = 32;
  http_head = 4;
  http_options = 512;
  http_patch = 16384;
  version_20 = 2000;
  version_11 = 1001;
  strncasecmp = λ s t n. if bytes_eq (take n s) (take n t) then pos 0 else pos 1;
  tolower = λ c. c;
  sort = λ cmp names. names;
  sha256 = λ b. replicate 32 (length b);
}

abbrev lib : NginxLib
lib = record {
  complex_value = λ r s. some s;
  cidr_match = λ s cs. ok;
  atoi = λ b. some (length b);
  strncasecmp_eq = λ s t n. true;
  sha256 = λ b. b;
  print = print_lib;
}

abbrev host : Header
host = record { hash = 1; key = codes "host"; value = codes "a.example" }

-- A crawler's User-Agent, a decoy path, and two Host headers in two parts of the list.
abbrev request : Request
request = record {
  uri = codes "/.git/config";
  method = 2;
  http_version = 1001;
  headers = (host ∷ []) ∷ (host ∷ []) ∷ [];
  host = some (codes "a.example");
  content_length = none;
  transfer_encoding = none;
  user_agent = some (codes "Googlebot/2.1");
  accept = none;
  accept_language = none;
  accept_encoding = none;
  addr_text = codes "192.0.2.1";
  sockaddr = some (inet (192 ∷ 0 ∷ 2 ∷ 1 ∷ []));
  err_status = 0;
  out_status = 200;
}

abbrev weights : Weights
weights = record {
  errrate = pos 2;
  blocked = pos 40;
  scanner = pos 30;
  bot = pos 15;
  header = pos 10;
  honeypot = pos 50;
  velocity = pos 20;
  asn = pos 10;
  coherence = pos 10;
  ja3 = pos 40;
  ja4 = pos 40;
  ja4t = pos 40;
  c2ip = pos 60;
  crowdsec = pos 100;
}

abbrev conf : LocConf
conf = record {
  enabled = true;
  shadow = false;
  weights = weights;
  threshold = record { challenge = pos 30; tarpit = pos 60; block = pos 80 };
  decoy_paths = codes "/wp-old" ∷ codes "/.git" ∷ [];
  allow_cidrs = codes "192.0.2.0/24" ∷ [];
  asn_source = none;
  asn_list = [];
  ja3_source = none;
  ja3_list = [];
  ja4_source = none;
  ja4_list = [];
  ja4t_source = none;
  ja4t_list = [];
  c2ip_tree = none;
  c2ip_tree6 = none;
  block_status = 403;
  block_ttl = 600;
  throttle_rate = 0;
  shield = false;
  redis_host = [];
  redis_ttl = 600;
  cs_sink_path = [];
  cs_sink_ttl = 600;
  resolver = false;
}

abbrev pow_lib : PowLib
pow_lib = record {
  hmac = λ key msg. some [];
  sha256 = λ b. b;
  print = λ n. [];
  atotm = λ b. none;
  cookie = λ r name. none;
  strncasecmp_eq = λ s t n. true;
  arg = λ r name. none;
}

abbrev pow_conf : PowConf
pow_conf = record { enabled = true; secret = codes "k"; difficulty = 8; ttl = 2 }

abbrev tarpit_conf : TarpitConf
tarpit_conf = record { max_conns = 4; delay = 1000; bytes = 100; max_lifetime = 60000; maze = true }

abbrev env : Env
env = record {
  now = 100;
  now_msec = 100000;
  worker = 0;
  ctx_alloc = true;
  node_fits = true;
  cookie_alloc = true;
  page_alloc = true;
  start = record { ctx_alloc = true; cleanup_alloc = true; header_rc = ok; seed = 7 };
  strlen = 113;
}

abbrev ring : Ring
ring = record { head = 0; tail = 0; dropped = 0; ring = [] }

abbrev shared : Shared
shared = record {
  zones = record { zone = none; vel_zone = none; fcrdns_zone = none; cs_zone = none };
  conns = some (0 ∷ []);
  push = some ring;
  sink = some ring;
  metrics = some counters;
}

-- A client that the ban table bans, blocked.
abbrev ctx : Ctx
ctx = record {
  inputs = record zero_inputs { crowdsec_hit = true; crowdsec_action = cs_ban };
  score = pos 100;
  verdict = block;
  resolving = false;
}

no_ban_loop_example :
    let s' = (dispatch lib pow_lib request conf pow_conf tarpit_conf env (some ctx) shared).1 in
    (s'.push ≡ some ring) × (s'.sink ≡ some ring)
no_ban_loop_example = no_ban_loop lib pow_lib request conf pow_conf tarpit_conf env ctx shared refl

-- Two requests, the second in shadow mode.
abbrev call : Call
call = record {
  request = request;
  conf = record conf { enabled = true };
  pow = pow_conf;
  tarpit = tarpit_conf;
  env = env;
  cached = some ctx;
}

abbrev calls : List Call
calls = call ∷ record call { conf = record conf { enabled = true; shadow = true } } ∷ []

handler_counts_example :
    let s' = handle_all lib pow_lib calls shared in
    (metric_get s'.metrics requests
      ≡ (metric_get shared.metrics requests + length (counted_all lib pow_lib calls shared))
        % 2 ^ 64)
    × (verdict_sum shared.metrics % 2 ^ 64 ≡ metric_get shared.metrics requests % 2 ^ 64
        → verdict_sum s'.metrics % 2 ^ 64 ≡ metric_get s'.metrics requests % 2 ^ 64)
handler_counts_example = handler_counts lib pow_lib calls shared counters refl counters_IsCounters

-- A fresh zone, and a ring that is empty.
abbrev zone : Zone
zone = record { interval = 60; block = 300; threshold = 3; cs_generation = 0; queue = [] }

abbrev fresh : Ring
fresh = record { head = 0; tail = 0; dropped = 0; ring = replicate push_ring empty_entry }

fresh-IsRing : IsRing fresh
unfolding used
fresh-IsRing = record {
  head = omega arith;
  tail = omega arith;
  bound = omega arith;
  size = length-replicate push_ring empty_entry;
}

zone-IsSound : IsSound 100 zone
zone-IsSound = record { valid = tt; distinct = tt; past = tt }

abbrev exporting : LocConf
exporting = record conf { redis_host = codes "redis.example" }

abbrev own : Ctx
own = record ctx { inputs = zero_inputs }

abbrev ready : Shared
ready = record shared {
  zones = record { zone = some zone; vel_zone = none; fcrdns_zone = none; cs_zone = none };
  push = some fresh;
}

local_block_example :
    let (out, s') =
      dispatch lib pow_lib request exporting pow_conf tarpit_conf env (some own) ready in
    let entry : Entry = record { ip = request.addr_text; action = cs_ban; expiry = 700 } in
    (out.rc ≡ status 403)
    × ((errrate_lookup s'.zones.zone request.addr_text 500).0
        ≡ record { rc = busy; count = 3; blocked_until = 700 })
    × ((p' : Ring) × (s'.push ≡ some p') × IsRing p' × (queue p' ≡ queue fresh ++ (entry ∷ [])))
unfolding used
local_block_example =
    local_block lib pow_lib request exporting pow_conf tarpit_conf env own ready zone fresh 500 refl
      refl refl refl zone-IsSound (omega arith) refl (omega arith) refl fresh-IsRing (omega arith)
      (omega arith) (omega arith) (omega arith) (omega arith)

-- A request that ends in 404.
abbrev missing : Request
missing = record request { out_status = 404 }

abbrev logging : Zones
logging = record { zone = some zone; vel_zone = some zone; fcrdns_zone = none; cs_zone = none }

log_handler_records_example :
    let zs' = log_handler lib missing conf env logging in
    Recorded zone 100 missing.addr_text zs'.vel_zone
    × (400 ≤ final_status missing → Recorded zone 100 missing.addr_text zs'.zone)
    × (final_status missing < 400 → zs'.zone ≡ some zone)
log_handler_records_example =
    log_handler_records lib missing conf env logging zone zone refl (omega arith) refl refl refl
      zone-IsSound zone-IsSound (omega arith) (omega arith)
