-- ===== src/Fcrdns.antt =====
-- sentinel_fcrdns.c: the asynchronous confirmation of a crawler's address, from the PTR lookup over
-- the forward lookup to the cached verdict. The resolver calls a handler once, later; what it and
-- the allocator answer during one call is an `Env`.
mod Tests
pub mod Match
pub mod Confirm
use nginx_http_sentinel_modu.Prelude.{
  ℕ, ◌-◌, Bool, true, false, List, [], ◌∷◌, Option, none, some, ltb, leb, ◌==◌, ◌&&◌, if◌then◌else◌,
  length, take, drop, Bytes, bytes_eq,
}
use nginx_http_sentinel_modu.Nginx.{SockAddr, inet, inet6, unix}
use nginx_http_sentinel_modu.Shm.Zone.{Zone}
use nginx_http_sentinel_modu.Shm.Crowdsec.{
  fcrdns_pending, fcrdns_verified, fcrdns_failed, fcrdns_set,
}

-- `NGX_SENTINEL_FCRDNS_DEFAULT_TTL` and `NGX_SENTINEL_DIGEST_LEN`
abbrev pub default_ttl : ℕ
default_ttl = 3600

abbrev digest_len : ℕ
digest_len = 32

-- `sentinel_fcrdns_carrier_t`, without the resolver and the log.
pub record Carrier : Type 0 where
  pub key : Bytes
  pub addr : SockAddr
  pub ttl : ℕ
  pub suffixes : List Bytes
  pub ptr_name : Bytes

-- The time, and whether an allocation, the start of a lookup, its submission and the insertion into
-- the cache succeed.
pub record Env : Type 0 where
  pub now : ℕ
  pub alloc : Bool
  pub started : Bool
  pub submitted : Bool
  pub fits : Bool

-- `sentinel_fcrdns_finish`: the cache behind it.
unfoldable pub finish : Carrier → ℕ → Env → Option Zone → Option Zone
finish c verdict env z =
    if verdict == fcrdns_pending then z else (fcrdns_set z c.key verdict env.now c.ttl env.fits).1

-- The test of one suffix; `same` is `ngx_strncasecmp (s, t, n) == 0`.
unfoldable pub ends_with : (Bytes → Bytes → ℕ → Bool) → Bytes → Bytes → Bool
ends_with same name suffix =
    leb (length suffix) (length name)
    && same (drop (length name - length suffix) name) suffix (length suffix)

unfoldable pub some_suffix : (Bytes → Bytes → ℕ → Bool) → Bytes → List Bytes → Bool
some_suffix same name [] = false
some_suffix same name (s ∷ ss) = if ends_with same name s then true else some_suffix same name ss

-- `sentinel_fcrdns_suffix_ok`
unfoldable pub suffix_ok : (Bytes → Bytes → ℕ → Bool) → List Bytes → Bytes → Bool
suffix_ok same [] name = true
suffix_ok same (s ∷ ss) name = some_suffix same name (s ∷ ss)

-- `sentinel_fcrdns_resolve_start`: the carrier of the PTR lookup, if it is under way.
unfoldable resolve_start : Env → Option SockAddr → Bytes → ℕ → List Bytes → Option Carrier
resolve_start env none key ttl suffixes = none
resolve_start env (some addr) key ttl suffixes =
    if env.alloc && env.started && env.submitted
    then some (record {
      key = take digest_len key;
      addr = addr;
      ttl = if ltb 0 ttl then ttl else default_ttl;
      suffixes = suffixes;
      ptr_name = [];
    })
    else none

-- `sentinel_fcrdns_ptr_handler`; the answer is `none` unless the state is NGX_OK. The carrier that
-- comes back waits for the forward lookup.
unfoldable pub ptr_handler :
    (Bytes → Bytes → ℕ → Bool)
    → Carrier
    → Option Bytes
    → Env
    → Option Zone
    → Option Carrier × Option Zone
ptr_handler same c none env z = (none, finish c fcrdns_pending env z)
ptr_handler same c (some []) env z = (none, finish c fcrdns_pending env z)
ptr_handler same c (some (b ∷ name)) env z =
    if suffix_ok same c.suffixes (b ∷ name)
    then (if env.alloc && env.started && env.submitted
        then (some (record c { ptr_name = b ∷ name }), z)
        else (none, finish c fcrdns_pending env z))
    else (none, finish c fcrdns_failed env z)

-- The comparison of one address of the forward set with the client's.
unfoldable pub same_addr : SockAddr → SockAddr → Bool
same_addr (inet a) (inet o) = bytes_eq a o
same_addr (inet6 a) (inet6 o) = bytes_eq a o
same_addr _ _ = false

unfoldable pub forward_match : SockAddr → List SockAddr → Bool
forward_match orig [] = false
forward_match orig (a ∷ as') = if same_addr a orig then true else forward_match orig as'

-- `sentinel_fcrdns_fwd_handler`
unfoldable pub fwd_handler : Carrier → Option (List SockAddr) → Env → Option Zone → Option Zone
fwd_handler c none env z = finish c fcrdns_pending env z
fwd_handler c (some []) env z = finish c fcrdns_pending env z
fwd_handler c (some (a ∷ as')) env z =
    finish c (if forward_match c.addr (a ∷ as') then fcrdns_verified else fcrdns_failed) env z

-- The chain: the PTR answer, and the answer to the forward lookup when there is one.
abbrev pub forward : Option Carrier × Option Zone → Option (List SockAddr) → Env → Option Zone
forward (none, z) answer env = z
forward (some c, z) answer env = fwd_handler c answer env z

abbrev pub chain :
    (Bytes → Bytes → ℕ → Bool)
    → Carrier
    → Option Bytes
    → Env
    → Option (List SockAddr)
    → Env
    → Option Zone
    → Option Zone
chain same c name env answer env' z = forward (ptr_handler same c name env z) answer env'
