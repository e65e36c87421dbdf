-- ===== src/Pow.antt =====
-- sentinel_pow.c: the proof-of-work challenge and its signed cookie. The two buffers of the message
-- are lists; the page itself is left out.
mod Tests
pub mod Cookie
pub mod Gate
use nginx_http_sentinel_modu.Prelude.{
  ℕ, zero, suc, ◌+◌, ◌*◌, ◌/◌, ◌%◌, Bool, true, false, not, List, [], ◌∷◌, ◌++◌, Option, none, some,
  ltb, leb, ◌==◌, ◌&&◌, ◌||◌, if◌then◌else◌, length, get_or, Bytes, codes, bytes_eq,
}
use nginx_http_sentinel_modu.Nginx.{
  Rc, ok, error, done, declined, SockAddr, inet, inet6, unix, Request, Header,
}

-- `HMAC` with SHA-256 (`none` is a failure or another length), `SHA256`, ngx_sprintf's `%ui` and
-- `%T`, `ngx_atotm` (`none` is NGX_ERROR), `ngx_http_parse_cookie_lines` (`none` is NULL),
-- `ngx_strncasecmp (s, t, n) == 0`, and `ngx_http_arg` (`none` is not NGX_OK).
pub record PowLib : Type 0 where
  pub hmac : Bytes → Bytes → Option Bytes
  pub sha256 : Bytes → Bytes
  pub print : ℕ → Bytes
  pub atotm : Bytes → Option ℕ
  pub cookie : Request → Bytes → Option Bytes
  pub strncasecmp_eq : Bytes → Bytes → ℕ → Bool
  pub arg : Request → Bytes → Option Bytes

-- The configuration of the challenge.
pub record PowConf : Type 0 where
  pub enabled : Bool
  pub secret : Bytes
  pub difficulty : ℕ
  pub ttl : ℕ

-- `ngx_sentinel_pow_state_e`
pub data PowState : Type 0 where
  off challenge verified : PowState

-- `NGX_SENTINEL_POW_HEXLEN` and `NGX_SENTINEL_POW_NONCE_MAX`
abbrev pub hexlen : ℕ
hexlen = 64

abbrev nonce_max : ℕ
nonce_max = 64

-- `sentinel_pow_hex`
unfoldable pub pow_hex : Bytes → Bytes
pow_hex [] = []
pow_hex (b ∷ bs) =
    get_or (codes "0123456789abcdef") (b / 16) 0
    ∷ get_or (codes "0123456789abcdef") (b % 16) 0
    ∷ pow_hex bs

-- The switch over the address family, and the bound on the length of the identity.
unfoldable pub identity : Request → Option Bytes
identity r =
    let id : Bytes = elim r.sockaddr [
      | some (inet addr) ↦ addr
      | some (inet6 addr) ↦ addr
      | _ ↦ r.addr_text
    ] in
    if length id == 0 || ltb 16 (length id) then none else some id

-- The hexadecimal HMAC of an identity and a number.
unfoldable pub signed : PowLib → PowConf → Option Bytes → ℕ → Option Bytes
signed lib conf none n = none
signed lib conf (some id) n = elim (lib.hmac conf.secret (id ++ lib.print n)) [
  | none ↦ none
  | some mac ↦ some (pow_hex mac)
]

-- `lcf->pow_ttl > 0 ? lcf->pow_ttl : 1`
unfoldable pub ttl_of : PowConf → ℕ
ttl_of conf = if conf.ttl == 0 then 1 else conf.ttl

-- `sentinel_pow_challenge`; `none` is NGX_ERROR.
unfoldable pub pow_challenge : PowLib → PowConf → Request → ℕ → Option Bytes
pow_challenge lib conf r now = signed lib conf (identity r) (now / ttl_of conf)

-- `sentinel_pow_cookie_mac`
unfoldable pub cookie_mac : PowLib → PowConf → Request → ℕ → Option Bytes
cookie_mac lib conf r expiry = signed lib conf (identity r) expiry

-- The shift loop of sentinel_pow_meets_difficulty on a byte that is not 0.
unfoldable pub byte_bits : ℕ → ℕ → ℕ
byte_bits zero b = 0
byte_bits (suc n) b = let rest = byte_bits n (b * 2 % 256) in if ltb b 128 then suc rest else 0

-- The leading zero bits of a digest.
unfoldable pub lead_bits : Bytes → ℕ
lead_bits [] = 0
lead_bits (b ∷ bs) = let rest = lead_bits bs in if b == 0 then 8 + rest else byte_bits 8 b

-- `sentinel_pow_meets_difficulty`
unfoldable pub meets_difficulty : Bytes → ℕ → Bool
meets_difficulty digest difficulty = leb difficulty (lead_bits digest)

-- `ngx_strlchr` for a dot: what stands before it and behind it.
unfoldable pub split_dot : Bytes → Option (Bytes × Bytes)
split_dot [] = none
split_dot (c ∷ cs) =
    let rest = split_dot cs in
    if c == b'.' then some ([], cs) else elim rest [ none ↦ none | some (a, b) ↦ some (c ∷ a, b) ]

-- The MAC of the cookie against the recomputed one.
unfoldable pub match_mac : Bytes → Option Bytes → Rc
match_mac mac none = error
match_mac mac (some want) = if bytes_eq mac want then ok else error

-- The time that the cookie carries, and then its MAC.
unfoldable pub check_expiry : PowLib → PowConf → Request → ℕ → Bytes → Option ℕ → Rc
check_expiry lib conf r now mac none = error
check_expiry lib conf r now mac (some expiry) =
    if leb expiry now then error else match_mac mac (cookie_mac lib conf r expiry)

-- The two parts of the cookie's value.
unfoldable pub check_parts : PowLib → PowConf → Request → ℕ → Option (Bytes × Bytes) → Rc
check_parts lib conf r now none = error
check_parts lib conf r now (some (digits, mac)) =
    if not (length mac == hexlen) then error else check_expiry lib conf r now mac (lib.atotm digits)

-- The cookie's value against the request and the clock.
unfoldable pub check_value : PowLib → PowConf → Request → ℕ → Bytes → Rc
check_value lib conf r now value =
    if leb (length value) (hexlen + 1) then error else check_parts lib conf r now (split_dot value)

-- `sentinel_pow_check_cookie`
unfoldable pub check_cookie : PowLib → PowConf → Request → ℕ → Rc
check_cookie lib conf r now = elim (lib.cookie r (codes "__sentinel_pow")) [
  | none ↦ declined
  | some value ↦ if length value == 0 then declined else check_value lib conf r now value
]

-- The value of the first header with the name, through the parts of the header list.
unfoldable pub find_header : PowLib → Bytes → List Header → Option Bytes → Option Bytes
find_header lib name [] later = later
find_header lib name (h ∷ hs) later =
    if length h.key == length name && lib.strncasecmp_eq h.key name (length name)
    then some h.value
    else find_header lib name hs later

unfoldable pub find_in_parts : PowLib → Bytes → List (List Header) → Option Bytes
find_in_parts lib name [] = none
find_in_parts lib name (part ∷ parts) = find_header lib name part (find_in_parts lib name parts)

-- A nonce of acceptable length.
unfoldable pub bounded_nonce : Bytes → Option Bytes
bounded_nonce v = if ltb 0 (length v) && leb (length v) nonce_max then some v else none

-- `sentinel_pow_get_nonce`
unfoldable pub get_nonce : PowLib → Request → Option Bytes
get_nonce lib r = elim (find_in_parts lib (codes "X-Sentinel-Pow") r.headers) [
  | some v ↦ bounded_nonce v
  | none ↦ elim (lib.arg r (codes "__sentinel_pow")) [ none ↦ none | some v ↦ bounded_nonce v ]
]

-- The value that sentinel_pow_set_cookie puts behind `__sentinel_pow=`, if it sets the cookie;
-- `alloc` is whether its two allocations succeed.
unfoldable pub set_cookie : PowLib → PowConf → Request → ℕ → Bool → Option Bytes
set_cookie lib conf r now alloc = elim (cookie_mac lib conf r (now + ttl_of conf)) [
  | none ↦ none
  | some mac ↦ if alloc then some (lib.print (now + ttl_of conf) ++ (b'.' ∷ mac)) else none
]

-- What a dispatch returns, the state it sets, and the cookie it sets.
pub record Dispatched : Type 0 where
  pub rc : Rc
  pub pow_state : PowState
  pub cookie : Option Bytes

-- The answer to the submitted nonce and, without a solution, sentinel_pow_send_page, which fails
-- when its buffer cannot be allocated.
unfoldable pub answer_nonce :
    PowLib → PowConf → Request → ℕ → Bool → Bool → Bytes → Option Bytes → Dispatched
answer_nonce lib conf r now alloc page_alloc chal nonce =
    let page : Dispatched = record {
      rc = if page_alloc then done else error;
      pow_state = challenge;
      cookie = none;
    } in
    elim nonce [
      | none ↦ page
      | some n ↦
          if meets_difficulty (lib.sha256 (chal ++ n)) conf.difficulty
          then record {
            rc = declined;
            pow_state = verified;
            cookie = set_cookie lib conf r now alloc;
          }
          else page
    ]

-- The dispatch behind the cookie, by the computed challenge.
unfoldable pub with_challenge :
    PowLib → PowConf → Request → ℕ → Bool → Bool → Option Bytes → Dispatched
with_challenge lib conf r now alloc page_alloc none = record {
  rc = declined;
  pow_state = off;
  cookie = none;
}
with_challenge lib conf r now alloc page_alloc (some chal) =
    answer_nonce lib conf r now alloc page_alloc chal (get_nonce lib r)

-- The dispatch by the answer of the cookie's check.
unfoldable pub behind_cookie : PowLib → PowConf → Request → ℕ → Bool → Bool → Rc → Dispatched
behind_cookie lib conf r now alloc page_alloc ok = record {
  rc = declined;
  pow_state = verified;
  cookie = none;
}
behind_cookie lib conf r now alloc page_alloc _ =
    with_challenge lib conf r now alloc page_alloc (pow_challenge lib conf r now)

-- `sentinel_pow_dispatch`
unfoldable pub pow_dispatch : PowLib → PowConf → Request → ℕ → Bool → Bool → Dispatched
pow_dispatch lib conf r now alloc page_alloc =
    if not conf.enabled || length conf.secret == 0
    then record { rc = declined; pow_state = off; cookie = none }
    else behind_cookie lib conf r now alloc page_alloc (check_cookie lib conf r now)
