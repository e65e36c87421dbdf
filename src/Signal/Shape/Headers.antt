-- ===== src/Signal/Shape/Headers.antt =====
-- The header heuristics against the header list read as one list.
use nginx_http_sentinel_modu.Prelude.{
  ℕ, suc, ◌+◌, ◌<◌, ◌≡◌, ◌↔◌, refl, true, false, not, List, [], ◌∷◌, ◌++◌, Option, none, some,
  arith, ◌&&◌, ◌==◌, ltb, if◌then◌else◌, length, Bytes, codes, Bool-cases, inl, inr, filter, ◌⊎◌,
}
use nginx_http_sentinel_modu.Nginx.{Request, Header}
use nginx_http_sentinel_modu.Score.{Inputs}
use nginx_http_sentinel_modu.Signal.Config.{NginxLib}
use nginx_http_sentinel_modu.Signal.Shape.{
  is_named, count_part, count_parts, header_count, header_signal, present, http_version_11,
  coh_find_from, coh_ua_contains,
}
use nginx_http_sentinel_modu.Signal.Agent.{find_from, ua_contains}

-- The parts of the header list one after the other.
abbrev all_headers : List (List Header) → List Header
all_headers [] = []
all_headers (part ∷ parts) = part ++ all_headers parts

-- How many headers have the name.
abbrev pub named : NginxLib → Bytes → List Header → ℕ
named lib name hs = length (filter (is_named lib name) hs)

count_part-named :
    (lib : NginxLib) (name : Bytes) (hs : List Header) (n : ℕ)
    → count_part lib name hs n ≡ n + named lib name hs
unfolding count_part
count_part-named lib name [] n = omega arith
count_part-named lib name (h ∷ hs) n = elim (Bool-cases (is_named lib name h)) [
  | inl e ↦ rw e (omega (arith, count_part-named lib name hs (suc n)))
  | inr e ↦ rw e (count_part-named lib name hs n)
]

named-append :
    (lib : NginxLib) (name : Bytes) (hs gs : List Header)
    → named lib name (hs ++ gs) ≡ named lib name hs + named lib name gs
named-append lib name [] gs = omega arith
named-append lib name (h ∷ hs) gs = elim (Bool-cases (is_named lib name h)) [
  | inl e ↦ rw e (omega (arith, named-append lib name hs gs))
  | inr e ↦ rw e (named-append lib name hs gs)
]

count_parts-named :
    (lib : NginxLib) (name : Bytes) (parts : List (List Header)) (n : ℕ)
    → count_parts lib name parts n ≡ n + named lib name (all_headers parts)
unfolding count_parts
count_parts-named lib name [] n = omega arith
count_parts-named lib name (part ∷ parts) n = omega (
  arith,
  count_parts-named lib name parts (count_part lib name part n),
  count_part-named lib name part n,
  named-append lib name part (all_headers parts),
)

-- The four anomalies.
abbrev pub Anomaly : NginxLib → Request → Type 0
Anomaly lib r =
    ((r.http_version ≡ http_version_11) × (r.host ≡ none))
    ⊎ ((present r.content_length ≡ true) × (present r.transfer_encoding ≡ true))
    ⊎ (1 < named lib (codes "host") (all_headers r.headers))
    ⊎ ((r.user_agent ≡ none) × (named lib (codes "accept") (all_headers r.headers) ≡ 0))

header_count-named :
    (lib : NginxLib) (r : Request) (name : Bytes)
    → header_count lib r name ≡ named lib name (all_headers r.headers)
unfolding header_count
header_count-named lib r name = omega (arith, count_parts-named lib name r.headers 0)

header_flag :
    (v : ℕ) (host cl te ua : Option Bytes) (hosts accepts : ℕ) (i : Inputs)
    → let set : Inputs = record i { header_anomaly = true } in
      let clear : Inputs = record i { header_anomaly = false } in
      ((if v == http_version_11 && not (present host)
          then set
          else if present cl && present te
          then set
          else if ltb 1 hosts
          then set
          else if not (present ua) && accepts == 0
          then set
          else clear).header_anomaly
        ≡ true)
      ↔ (((v ≡ http_version_11) × (host ≡ none))
          ⊎ ((present cl ≡ true) × (present te ≡ true))
          ⊎ (1 < hosts)
          ⊎ ((ua ≡ none) × (accepts ≡ 0)))
header_flag v none cl te none hosts accepts i = (ground arith, ground arith)
header_flag v none cl te (some u) hosts accepts i = (ground arith, ground arith)
header_flag v (some h) cl te none hosts accepts i = (ground arith, ground arith)
header_flag v (some h) cl te (some u) hosts accepts i = (ground arith, ground arith)

-- The header flag is set exactly when the request has one of the four anomalies: HTTP/1.1 without
-- Host, Content-Length together with Transfer-Encoding, more than one Host in the whole chunked
-- header list, or neither User-Agent nor Accept.
pub header_signal_iff :
    (lib : NginxLib) (r : Request) (i : Inputs)
    → ((header_signal lib (some r) i).header_anomaly ≡ true) ↔ Anomaly lib r
unfolding header_signal
header_signal_iff lib r i =
    rw (header_count-named lib r (codes "host"), header_count-named lib r (codes "accept"))
      (header_flag r.http_version r.host r.content_length r.transfer_encoding r.user_agent
        (named lib (codes "host") (all_headers r.headers))
        (named lib (codes "accept") (all_headers r.headers)) i)

-- sentinel_coherence.c's copy of the substring search is the one of sentinel_botua.c.
coh_find_from_same : (ua sub : Bytes) → coh_find_from ua sub ≡ find_from ua sub
unfolding coh_find_from find_from
coh_find_from_same [] sub = refl
coh_find_from_same (x ∷ ua) sub = rw (coh_find_from_same ua sub) refl

coh_ua_contains_same : (ua sub : Bytes) → coh_ua_contains ua sub ≡ ua_contains ua sub
unfolding coh_ua_contains ua_contains
coh_ua_contains_same ua sub = rw (coh_find_from_same ua sub) refl
