-- ===== src/Signal/Shape.antt =====
-- sentinel_header.c and sentinel_coherence.c: the shape of the request headers.
pub mod Headers
use nginx_http_sentinel_modu.Prelude.{
  ℕ, suc, ◌+◌, Bool, true, false, not, List, [], ◌∷◌, Option, none, some, ◌&&◌, ◌||◌, ◌==◌, ltb,
  leb, if◌then◌else◌, any, length, Bytes, codes, strncmp_eq,
}
use nginx_http_sentinel_modu.Nginx.{Request, Header}
use nginx_http_sentinel_modu.Score.{Inputs}
use nginx_http_sentinel_modu.Signal.Config.{NginxLib}
use nginx_http_sentinel_modu.Signal.Agent.{head_eq}

-- `NGX_HTTP_VERSION_11`
abbrev pub http_version_11 : ℕ
http_version_11 = 1001

abbrev pub present : Option Bytes → Bool
present none = false
present (some v) = true

-- The test of one header's key.
unfoldable pub is_named : NginxLib → Bytes → Header → Bool
is_named lib name h = length h.key == length name && lib.strncasecmp_eq h.key name (length name)

-- The walk of header_count: the rest of the part at hand, then the parts behind it, none of which
-- nginx leaves empty.
unfoldable pub count_part : NginxLib → Bytes → List Header → ℕ → ℕ
count_part lib name [] n = n
count_part lib name (h ∷ hs) n = count_part lib name hs (if is_named lib name h then suc n else n)

unfoldable pub count_parts : NginxLib → Bytes → List (List Header) → ℕ → ℕ
count_parts lib name [] n = n
count_parts lib name (part ∷ parts) n = count_parts lib name parts (count_part lib name part n)

-- `header_count`
unfoldable pub header_count : NginxLib → Request → Bytes → ℕ
header_count lib r name = count_parts lib name r.headers 0

-- `sentinel_header_signal`
unfoldable pub header_signal : NginxLib → Option Request → Inputs → Inputs
header_signal lib none i = record i { header_anomaly = false }
header_signal lib (some r) i =
    if r.http_version == http_version_11 && not (present r.host)
    then record i { header_anomaly = true }
    else if present r.content_length && present r.transfer_encoding
    then record i { header_anomaly = true }
    else if ltb 1 (header_count lib r (codes "host"))
    then record i { header_anomaly = true }
    else if not (present r.user_agent) && header_count lib r (codes "accept") == 0
    then record i { header_anomaly = true }
    else record i { header_anomaly = false }

abbrev browser_ua_substrings : List Bytes
browser_ua_substrings =
    codes "Chrome/" ∷ codes "Firefox/" ∷ codes "Safari/" ∷ codes "Edg/" ∷ codes "Gecko/" ∷ []

-- The loop of coh_ua_contains.
unfoldable pub coh_find_from : Bytes → Bytes → Bool
coh_find_from [] sub = false
coh_find_from (x ∷ ua) sub =
    if ltb (length (x ∷ ua)) (length sub)
    then false
    else if head_eq (x ∷ ua) sub && strncmp_eq (x ∷ ua) sub (length sub)
    then true
    else coh_find_from ua sub

-- `coh_ua_contains`
unfoldable pub coh_ua_contains : Bytes → Bytes → Bool
coh_ua_contains ua sub =
    if length sub == 0 || ltb (length ua) (length sub) then false else coh_find_from ua sub

-- `coh_accepts_gzip`. An empty value contains neither token.
unfoldable pub coh_accepts_gzip : Request → Bool
coh_accepts_gzip r = elim r.accept_encoding [
  | none ↦ false
  | some v ↦
      if length v == 0
      then false
      else coh_ua_contains v (codes "gzip") || coh_ua_contains v (codes "br")
]

-- `h != NULL && h->value.len > 0`
abbrev nonempty : Option Bytes → Bool
nonempty none = false
nonempty (some v) = ltb 0 (length v)

-- `sentinel_coherence_signal`
unfoldable pub coherence_signal : Option Request → Inputs → Inputs
coherence_signal none i = record i { ua_incoherent = false }
coherence_signal (some r) i = elim r.user_agent [
  | none ↦ record i { ua_incoherent = false }
  | some ua ↦
      if not (any (coh_ua_contains ua) browser_ua_substrings)
      then record i { ua_incoherent = false }
      else if not (nonempty r.accept)
          || not (nonempty r.accept_language)
          || not (coh_accepts_gzip r)
          || not (leb http_version_11 r.http_version)
      then record i { ua_incoherent = true }
      else record i { ua_incoherent = false }
]
