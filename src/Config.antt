-- ===== src/Config.antt =====
-- ngx_http_sentinel_module.c: the location configuration, how it is created empty and merged with
-- its parent's. The integer members of `ngx_sentinel_loc_conf_t` are a function of the member's
-- name, and so are its lists, its pointers and its strings; NULL is `none`, an object pointed to is
-- a number. nginx's `NGX_HTTP_CLOSE` and `ngx_pagesize` are a parameter.
mod Tests
pub mod Inherit
pub mod Merge
use nginx_http_sentinel_modu.Prelude.{
  ℕ, suc, ◌+◌, ◌*◌, Bool, true, false, not, List, [], ◌∷◌, Option, none, some, ltb, ◌==◌, ◌&&◌,
  ◌||◌, if◌then◌else◌, length, Bytes, codes, strncmp_eq,
}
use nginx_http_sentinel_modu.Prelude.Int.{ℤ, pos, negsuc, ltb_ℤ}
use nginx_http_sentinel_modu.Score.{score_max}

-- The integer members.
pub data Field : Type 0 where
  enabled shadow fail_open thresh_challenge thresh_tarpit thresh_block : Field
  w_errrate w_blocked w_scanner w_bot w_header w_honeypot w_velocity w_asn : Field
  w_c2ip w_ja3 w_ja4 w_ja4t w_coherence w_crowdsec : Field
  fcrdns_ttl cs_interval cs_default_ttl cs_stale_after cs_max_bytes : Field
  redis_port redis_interval redis_ttl sink_interval sink_ttl : Field
  tarpit_max_conns tarpit_delay tarpit_bytes tarpit_max_lifetime tarpit_maze : Field
  block_status block_ttl throttle_rate shield pow_enabled pow_difficulty pow_ttl : Field

-- The strings that are inherited when empty, and those that are inherited when NULL.
pub data PathField : Type 0 where
  cs_feed redis_host sink_path vel_zone_name fcrdns_zone_name : PathField

pub data TextField : Type 0 where
  redis_password redis_prefix sink_scenario pow_secret : TextField

pub data ListField : Type 0 where
  decoy_paths allow_cidrs asn_list ja3_list ja4_list ja4t_list fcrdns_suffixes : ListField

-- The pointers that are inherited when NULL.
pub data PtrField : Type 0 where
  asn_source c2ip_tree c2ip_tree6 ja3_source ja4_source ja4t_source zone : PtrField

-- A pointer that can also be NGX_CONF_UNSET_PTR.
pub data Ref : Type 0 where
  unset null : Ref
  ref : ℕ → Ref

pub data ZoneField : Type 0 where
  vel_zone cs_zone fcrdns_zone : ZoneField

-- An element of a list stands for itself as bytes.
pub record LocRaw : Type 0 where
  pub value : Field → ℤ
  pub path : PathField → Bytes
  pub text : TextField → Option Bytes
  pub list : ListField → List Bytes
  pub pointer : PtrField → Option ℕ
  pub zones : ZoneField → Ref
  pub push_zone : Option ℕ
  pub sink_zone : Option ℕ

-- The names of the zones of `ngx_sentinel_main_conf_t`, and nginx's constants.
pub record MainRaw : Type 0 where
  pub error_zones : List Bytes
  pub cs_zones : List Bytes
  pub vel_zones : List Bytes
  pub fcrdns_zones : List Bytes
  pub pagesize : ℕ
  pub http_close : ℕ

-- `NGX_CONF_UNSET` and `NGX_CONF_UNSET_SIZE`
abbrev pub conf_unset : ℤ
conf_unset = negsuc 0

-- `ngx_sentinel_create_loc_conf`
unfoldable pub create_loc_conf : LocRaw
create_loc_conf = record {
  value = λ k. conf_unset;
  path = λ k. [];
  text = λ k. none;
  list = λ k. [];
  pointer = λ k. none;
  zones = λ k. unset;
  push_zone = none;
  sink_zone = none;
}

-- The defaults of the integer members.
unfoldable pub default_of : Field → ℕ
default_of enabled = 0
default_of shadow = 1
default_of fail_open = 1
default_of thresh_challenge = 30
default_of thresh_tarpit = 60
default_of thresh_block = 80
default_of w_errrate = 1
default_of w_blocked = 100
default_of w_scanner = 50
default_of w_bot = 30
default_of w_header = 25
default_of w_honeypot = 90
default_of w_velocity = 30
default_of w_asn = 35
default_of w_c2ip = 80
default_of w_ja3 = 80
default_of w_ja4 = 50
default_of w_ja4t = 45
default_of w_coherence = 40
default_of w_crowdsec = 100
default_of fcrdns_ttl = 3600
default_of cs_interval = 10
default_of cs_default_ttl = 3600
default_of cs_stale_after = 600
default_of cs_max_bytes = 16 * 1024 * 1024
default_of redis_port = 6379
default_of redis_interval = 10
default_of redis_ttl = 3600
default_of sink_interval = 10
default_of sink_ttl = 3600
default_of tarpit_max_conns = 256
default_of tarpit_delay = 5000
default_of tarpit_bytes = 1024
default_of tarpit_max_lifetime = 30000
default_of tarpit_maze = 0
default_of block_status = 403
default_of block_ttl = 0
default_of throttle_rate = 0
default_of shield = 0
default_of pow_enabled = 0
default_of pow_difficulty = 16
default_of pow_ttl = 3600

unfoldable pub default_text : TextField → Bytes
default_text redis_password = []
default_text redis_prefix = codes "sentinel"
default_text sink_scenario = codes "sentinel/http-abuse"
default_text pow_secret = []

abbrev is_unset : ℤ → Bool
is_unset (pos n) = false
is_unset (negsuc n) = n == 0

-- `ngx_conf_merge_value`, `ngx_conf_merge_ptr_value` with NULL, and `ngx_conf_merge_str_value`.
unfoldable pub merge_value : ℤ → ℤ → ℕ → ℤ
merge_value c p d = if is_unset c then (if is_unset p then pos d else p) else c

unfoldable pub merge_ref : Ref → Ref → Ref
merge_ref unset unset = null
merge_ref unset p = p
merge_ref c p = c

unfoldable pub merge_text : Option Bytes → Option Bytes → Bytes → Option Bytes
merge_text (some s) p d = some s
merge_text none (some s) d = some s
merge_text none none d = some d

-- Strings and lists that are inherited when empty, and pointers that are when NULL.
unfoldable pub merge_list : {A : Type 0} → List A → List A → List A
merge_list [] p = p
merge_list (x ∷ c) p = x ∷ c

unfoldable pub merge_ptr : Option ℕ → Option ℕ → Option ℕ
merge_ptr none p = p
merge_ptr (some c) p = some c

-- The first zone of that name, counted from `i`.
unfoldable pub find_zone : ℕ → List Bytes → Bytes → Ref
find_zone i [] name = null
find_zone i (z ∷ zs) name =
    if length z == length name && strncmp_eq z name (length name)
    then ref i
    else find_zone (suc i) zs name

-- A zone that is bound by name: the name must resolve on its own.
unfoldable pub named_zone : Ref → Ref → List Bytes → Bytes → Ref
named_zone c p zs [] = merge_ref c p
named_zone c p zs (b ∷ name) = find_zone 0 zs (b ∷ name)

-- The first declared zone, if there is none yet.
abbrev pub first_zone : List Bytes → Option ℕ → Option ℕ
first_zone zs (some z) = some z
first_zone [] none = none
first_zone (z ∷ zs) none = some 0

abbrev pub first_ref : List Bytes → Ref → Ref
first_ref [] null = null
first_ref (z ∷ zs) null = ref 0
first_ref zs r = r

-- Whether a feed or a Redis server is configured.
abbrev pub wants_bans : Bytes → Bytes → Bool
wants_bans feed host = not (length feed == 0) || not (length host == 0)

module _ (m : MainRaw) (p c : LocRaw) where
  unfoldable pub merged_path : PathField → Bytes
  merged_path k = merge_list (c.path k) (p.path k)

  unfoldable pub merged_zone : ZoneField → Ref
  unfolding merged_path
  merged_zone vel_zone =
      named_zone (c.zones vel_zone) (p.zones vel_zone) m.vel_zones (merged_path vel_zone_name)
  merged_zone fcrdns_zone =
      named_zone (c.zones fcrdns_zone) (p.zones fcrdns_zone) m.fcrdns_zones
        (merged_path fcrdns_zone_name)
  merged_zone cs_zone =
      let z = merge_ref (c.zones cs_zone) (p.zones cs_zone) in
      if wants_bans (merged_path cs_feed) (merged_path redis_host)
      then first_ref m.cs_zones z
      else z

  unfoldable pub merged_pointer : PtrField → Option ℕ
  merged_pointer zone = first_zone m.error_zones (merge_ptr (c.pointer zone) (p.pointer zone))
  merged_pointer k = merge_ptr (c.pointer k) (p.pointer k)

  -- A ring zone is inherited with the host or the path that it belongs to.
  abbrev merged_ring : Bytes → Option ℕ → Option ℕ → Option ℕ
  merged_ring [] own inherited = merge_ptr own inherited
  merged_ring (b ∷ s) own inherited = own

  -- The members after all merges of ngx_sentinel_merge_loc_conf.
  unfoldable pub merged : LocRaw
  merged = record {
    value = λ k. merge_value (c.value k) (p.value k) (default_of k);
    path = merged_path;
    text = λ k. merge_text (c.text k) (p.text k) (default_text k);
    list = λ k. merge_list (c.list k) (p.list k);
    pointer = merged_pointer;
    zones = merged_zone;
    push_zone = merged_ring (c.path redis_host) c.push_zone p.push_zone;
    sink_zone = merged_ring (c.path sink_path) c.sink_zone p.sink_zone;
  }

-- `v >= lo && v <= hi`
unfoldable pub in_bounds : ℤ → ℕ → ℕ → Bool
in_bounds v lo hi = not (ltb_ℤ v (pos lo) || ltb_ℤ (pos hi) v)

-- A zone that is named has been found.
unfoldable pub resolved : Bytes → Ref → Bool
resolved [] r = true
resolved (b ∷ name) (ref i) = true
resolved (b ∷ name) _ = false

-- A reader of bans has a zone for them.
unfoldable pub bound : Bool → Ref → Bool
bound true null = false
bound _ r = true

-- `block_status` is the closing status or one of 400 to 599.
unfoldable pub is_status : ℕ → ℤ → Bool
is_status close (pos n) = n == close || in_bounds (pos n) 400 599
is_status close v = in_bounds v 400 599

-- The validation of ngx_sentinel_merge_loc_conf, in its order.
unfoldable pub is_valid : MainRaw → LocRaw → Bool
is_valid m r =
    resolved (r.path fcrdns_zone_name) (r.zones fcrdns_zone)
    && resolved (r.path vel_zone_name) (r.zones vel_zone)
    && in_bounds (r.value w_crowdsec) 0 score_max
    && in_bounds (r.value cs_interval) 1 3600
    && in_bounds (r.value cs_default_ttl) 60 86400
    && in_bounds (r.value cs_stale_after) 30 86400
    && in_bounds (r.value cs_max_bytes) m.pagesize (64 * 1024 * 1024)
    && (length (r.path redis_host) == 0
        || (in_bounds (r.value redis_interval) 1 3600 && in_bounds (r.value redis_ttl) 60 86400))
    && (length (r.path sink_path) == 0
        || (in_bounds (r.value sink_interval) 1 3600 && in_bounds (r.value sink_ttl) 60 86400))
    && in_bounds (r.value tarpit_max_conns) 0 65536
    && in_bounds (r.value tarpit_delay) 100 60000
    && in_bounds (r.value tarpit_bytes) 1 65536
    && in_bounds (r.value tarpit_max_lifetime) 1000 600000
    && is_status m.http_close (r.value block_status)
    && not (ltb_ℤ (r.value block_ttl) (pos 0))
    && in_bounds (r.value pow_difficulty) 1 32
    && not (ltb_ℤ (r.value pow_ttl) (pos 1))
    && bound (wants_bans (r.path cs_feed) (r.path redis_host)) (r.zones cs_zone)

-- The interval that is written into the ban table, if there is one.
unfoldable pub zone_interval : Ref → ℤ → Option (ℕ × ℤ)
zone_interval (ref i) v = some (i, v)
zone_interval _ v = none

-- `ngx_sentinel_merge_loc_conf`: the merged configuration and the interval for the ban table, or
-- `none` for NGX_CONF_ERROR.
unfoldable pub merge_loc_conf : MainRaw → LocRaw → LocRaw → Option (LocRaw × Option (ℕ × ℤ))
merge_loc_conf m p c =
    let r = merged m p c in
    if is_valid m r
    then some (r, zone_interval (r.zones cs_zone) (r.value cs_stale_after))
    else none
