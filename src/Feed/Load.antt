-- ===== src/Feed/Load.antt =====
-- sentinel_feed.c: the timer of the loader, from the stat of the file to the parse, and the walk
-- over the location tree that arms one timer for each feed. The file system is a parameter.
pub mod Gates
pub mod Collect
use nginx_http_sentinel_modu.Prelude.{
  ℕ, ◌+◌, ◌*◌, Bool, true, false, List, [], ◌∷◌, ◌++◌, Option, none, some, ltb, ◌==◌, ◌&&◌, ◌||◌,
  not, if◌then◌else◌, length, any, Bytes, strncmp_eq,
}
use nginx_http_sentinel_modu.Nginx.{Rc, ok}
use nginx_http_sentinel_modu.Shm.Zone.{Zone}
use nginx_http_sentinel_modu.Feed.Decide.{FeedLib}
use nginx_http_sentinel_modu.Feed.Parse.{feed_parse}

-- `sentinel_feed_timer_t`, without its configuration: the mtime of the last load, and the two flags
-- that keep a warning from being repeated. `timer` is the delay, when it is armed.
pub record FeedTimer : Type 0 where
  pub last_mtime : ℕ
  pub missing_logged : Bool
  pub stale_logged : Bool
  pub timer : Option ℕ

-- The fields of the location's configuration.
pub record FeedConf : Type 0 where
  pub feed : Bytes
  pub stale_after : ℕ
  pub max_bytes : ℕ
  pub default_ttl : ℕ
  pub interval : ℕ

-- What the file system and the allocator answer: mtime and size of the file, whether pool, file and
-- buffer are to be had, and what the read returns, at most as many bytes as asked for.
pub record FileWorld : Type 0 where
  pub stat : Option (ℕ × ℕ)
  pub pool : Bool
  pub opened : Bool
  pub buffer : Bool
  pub read : Option Bytes

abbrev pub Loaded : Type 0
Loaded = FeedTimer × Option Zone

-- The mtime advances on a feed that was applied.
abbrev pub advance : FeedTimer → ℕ → Rc → FeedTimer
advance t mtime ok = record t { last_mtime = mtime }
advance t mtime _ = t

module _ (lib : FeedLib) (fits : ℕ → Bool) (conf : FeedConf) (w : FileWorld) (now : ℕ) where
  -- The read, and the parse of a buffer that is full.
  unfoldable pub parse_read : ℕ → ℕ → Option Bytes → FeedTimer → Option Zone → Loaded
  parse_read mtime fsize none t z = (t, z)
  parse_read mtime fsize (some bytes) t z =
      let (rc, z') = feed_parse lib fits z bytes conf.default_ttl now in
      if ltb (length bytes) fsize then (t, z) else (advance t mtime rc, z')

  -- Behind the stat: the gates on age, mtime and size, then the resources.
  unfoldable pub load_file : ℕ → ℕ → FeedTimer → Option Zone → Loaded
  load_file mtime fsize t z =
      let t' = record t { stale_logged = false } in
      let loaded = parse_read mtime fsize w.read t' z in
      if ltb (mtime + conf.stale_after) now
      then (record t { stale_logged = true }, z)
      else if not (t.last_mtime == 0) && mtime == t.last_mtime
      then (t', z)
      else if fsize == 0
      then (t', z)
      else if ltb conf.max_bytes fsize
      then (t', z)
      else if w.pool && w.opened && w.buffer
      then loaded
      else (t', z)

  unfoldable pub load_stat : Option (ℕ × ℕ) → FeedTimer → Option Zone → Loaded
  load_stat none t z = (record t { missing_logged = true }, z)
  load_stat (some (mtime, fsize)) t z =
      load_file mtime fsize (record t { missing_logged = false }) z

  -- `sentinel_feed_do_load`
  unfoldable pub feed_do_load : FeedTimer → Option Zone → Loaded
  feed_do_load t none = (t, none)
  feed_do_load t (some z) =
      let loaded = load_stat w.stat t (some z) in
      if length conf.feed == 0 then (t, some z) else loaded

  -- `sentinel_feed_timer_handler`; the timer is not armed when it is called.
  unfoldable feed_timer_handler : Bool → FeedTimer → Option Zone → Loaded
  feed_timer_handler exiting t z =
      let (t', z') = feed_do_load (record t { timer = none }) z in
      if exiting then (t', z') else (record t' { timer = some (conf.interval * 1000) }, z')

-- A location's configuration as the collector sees it: which it is, its zone and its feed.
pub record FeedLoc : Type 0 where
  pub loc : ℕ
  pub zone : Option ℕ
  pub path : Bytes

-- `ngx_http_location_tree_node_t`: the configurations of the exact and the inclusive location.
pub data LocTree : Type 0 where
  leaf : LocTree
  node : Option FeedLoc → Option FeedLoc → LocTree → LocTree → LocTree → LocTree

abbrev same_zone : Option ℕ → Option ℕ → Bool
same_zone none none = true
same_zone (some a) (some b) = a == b
same_zone _ _ = false

-- `existing[i] == lcf` or the same zone and feed.
unfoldable pub same_feed : FeedLoc → FeedLoc → Bool
same_feed l e =
    e.loc == l.loc
    || (same_zone e.zone l.zone
        && length e.path == length l.path
        && strncmp_eq e.path l.path (length l.path))

abbrev has_zone : Option ℕ → Bool
has_zone none = false
has_zone (some z) = true

-- The location has a feed and a zone.
unfoldable pub is_fed : FeedLoc → Bool
is_fed l = not (length l.path == 0) && has_zone l.zone

-- `sentinel_feed_add`; `room` is whether the array can grow.
unfoldable pub feed_add : Bool → Option FeedLoc → List FeedLoc → List FeedLoc
feed_add room none out = out
feed_add room (some l) out =
    if not (is_fed l)
    then out
    else if any (same_feed l) out
    then out
    else if room
    then out ++ (l ∷ [])
    else out

-- `sentinel_feed_collect_loc`
unfoldable pub collect_loc : Bool → LocTree → List FeedLoc → List FeedLoc
collect_loc room leaf out = out
collect_loc room (node exact inclusive left tree right) out = collect_loc room right (
    collect_loc room tree
      (collect_loc room left (feed_add room inclusive (feed_add room exact out))))

-- `sentinel_feed_collect`: the servers' static locations.
unfoldable pub feed_collect : Bool → List LocTree → List FeedLoc → List FeedLoc
feed_collect room [] out = out
feed_collect room (t ∷ ts) out = feed_collect room ts (collect_loc room t out)
