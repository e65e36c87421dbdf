-- ===== src/Feed/Tests.antt =====
-- A load of a small feed, and the theorems at it. The library functions are simple ones of the
-- same types: the address is its own canonical form, the checksum is the length.
use nginx_http_sentinel_modu.Prelude.{
  ℕ, ◌+◌, ◌*◌, ◌-◌, ◌≡◌, refl, true, false, List, [], ◌∷◌, Option, some, none, codes, Bytes, length,
  leb, if◌then◌else◌, strncmp_eq, ◌⊎◌,
}
use nginx_http_sentinel_modu.Nginx.{ok, declined}
use nginx_http_sentinel_modu.Score.{cs_ban}
use nginx_http_sentinel_modu.Shm.Zone.{Node, Zone, find_node}
use nginx_http_sentinel_modu.Feed.Lines.{Line, split_lines, line_bytes, find_trailer, is_trailer}
use nginx_http_sentinel_modu.Feed.Decide.{
  FeedLib, read_line, check_fields, canon_ip, feed_action, scan_fields, strip_cr, is_comment,
}
use nginx_http_sentinel_modu.Feed.Trailer.{
  check_trailer, check_split, check_count, check_crc, hex_loop, hex_digit, split_space,
}
use nginx_http_sentinel_modu.Feed.Parse.{
  next_generation, feed_parse, feed_header, validate, check_lines, check_body, accept_body,
  open_feed, count_lines, too_malformed,
}
use nginx_http_sentinel_modu.Feed.Parse.Apply.{entry_of, plan}
use nginx_http_sentinel_modu.Feed.Parse.Accept.{Accepted, feed_loaded, feed_rejected}
use nginx_http_sentinel_modu.Feed.Load.{
  FeedTimer, FeedConf, FileWorld, FeedLoc, LocTree, leaf, node, is_fed, feed_collect, feed_do_load,
}
use nginx_http_sentinel_modu.Feed.Load.Gates.{Kept, Passed, Applied, load_gates}
use nginx_http_sentinel_modu.Feed.Load.Collect.{Distinct, InSome, Armed, feed_collect_once}

abbrev decimal : ℕ → Bytes → Option ℕ
decimal acc [] = some acc
decimal acc (c ∷ cs) =
    let rest = decimal (acc * 10 + (c - b'0')) cs in
    if leb b'0' c then (if leb c b'9' then rest else none) else none

abbrev lib : FeedLib
lib = record {
  inet_addr = λ p. none;
  inet_ntop = λ n. [];
  inet6_addr = λ p. some p;
  inet6_ntop = λ p. p;
  atoi = decimal 0;
  crc32 = λ b. length b;
  sha256 = λ b. b;
}

-- An entry of an older feed.
abbrev old : Node
old = record {
  key = codes "::9";
  blocked_until = 900;
  last_seen = 90;
  event_head = 0;
  event_count = 0;
  cs_generation = 1;
  cs_action = cs_ban;
  redis_pulled = 0;
  events = [];
}

abbrev zone : Zone
zone = record { interval = 60; block = 0; threshold = 0; cs_generation = 1; queue = old ∷ [] }

abbrev feed : Bytes
feed = codes "# sentinel-crowdsec-feed v1\n::1 ban 500\n%%EOF 1 c\n"

abbrev body : List Line
body = record { text = codes "::1 ban 500"; ended = true } ∷ []

accepted : (feed_parse lib (λ _. true) (some zone) feed 60 100).0 ≡ ok
unfolding feed_parse validate check_lines check_body accept_body open_feed split_lines find_trailer
    is_trailer count_lines read_line check_trailer check_split check_count check_crc hex_loop
    hex_digit split_space check_fields canon_ip feed_action scan_fields strip_cr is_comment
    too_malformed line_bytes strncmp_eq
accepted = refl

-- A file that is cut within its first line.
headless : (body : List Line) → ¬ Accepted lib feed_header body
unfolding open_feed split_lines find_trailer is_trailer strncmp_eq
headless body a = absurd (cc (a.header))

feed_rejected_example :
    feed_parse lib (λ _. true) (some zone) feed_header 60 100 ≡ (declined, some zone)
feed_rejected_example = feed_rejected lib (λ _. true) zone feed_header 60 100 headless

feed_loaded_example :
    (b : List Line) × (z' : Zone) × ((feed_parse lib (λ _. true) (some zone) feed 60 100).1
      ≡ some z')
    × Accepted lib feed b
    × ((k : Bytes) → entry_of (find_node k z'.queue) ≡ plan lib 2 60 100 b (λ _. none) k)
unfolding next_generation
feed_loaded_example = feed_loaded lib zone feed 60 100 (tt, tt) (refl, tt) accepted

abbrev timer : FeedTimer
timer = record { last_mtime = 40; missing_logged = true; stale_logged = false; timer = none }

abbrev feed_conf : FeedConf
feed_conf = record {
  feed = codes "/feed";
  stale_after = 600;
  max_bytes = 4096;
  default_ttl = 60;
  interval = 10;
}

abbrev files : FileWorld
files = record {
  stat = some (90, length feed);
  pool = true;
  opened = true;
  buffer = true;
  read = some feed;
}

load_gates_example :
    let out = feed_do_load lib (λ _. true) feed_conf files 100 timer (some zone) in
    Kept lib (λ _. true) feed_conf files 100 timer zone out
    ⊎ ((mtime fsize : ℕ) × (files.stat ≡ some (mtime, fsize))
        × Passed lib (λ _. true) feed_conf files 100 mtime fsize timer
        × Applied lib (λ _. true) feed_conf files 100 mtime fsize zone out)
load_gates_example = load_gates lib (λ _. true) feed_conf files 100 timer zone

-- Two locations with the same feed, and one without a zone.
abbrev fed : FeedLoc
fed = record { loc = 1; zone = some 0; path = codes "/feed" }

abbrev servers : List LocTree
servers =
    node (some fed) (some (record fed { loc = 2 })) leaf
      (node none (some (record fed { loc = 3; zone = none })) leaf leaf leaf) leaf
    ∷ []

feed_collect_once_example :
    let feeds = feed_collect true servers [] in
    Distinct feeds × ((l : FeedLoc) → is_fed l ≡ true → InSome l servers → Armed l feeds)
feed_collect_once_example = feed_collect_once servers
