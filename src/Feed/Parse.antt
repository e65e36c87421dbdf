-- ===== src/Feed/Parse.antt =====
-- sentinel_feed_parse: validation without touching the zone, then the apply pass and the sweep.
-- The lock is taken and given up between batches; what other workers do in between is not modelled.
pub mod Apply
pub mod Correct
pub mod Accept
use nginx_http_sentinel_modu.Prelude.{
  ℕ, suc, ◌+◌, ◌*◌, ◌%◌, ◌^◌, Bool, true, false, not, List, [], ◌∷◌, Option, none, some, ltb, leb,
  ◌==◌, ◌&&◌, if◌then◌else◌, Bytes, codes, length, strncmp_eq,
}
use nginx_http_sentinel_modu.Nginx.{Rc, ok, error, declined}
use nginx_http_sentinel_modu.Shm.Zone.{Zone}
use nginx_http_sentinel_modu.Shm.Crowdsec.{Decision, upsert_locked}
use nginx_http_sentinel_modu.Shm.Crowdsec.Sweep.{sweep_all}
use nginx_http_sentinel_modu.Feed.Lines.{Line, split_lines, line_bytes, find_trailer}
use nginx_http_sentinel_modu.Feed.Trailer.{check_trailer}
use nginx_http_sentinel_modu.Feed.Decide.{
  FeedLib, Reading, skip, bad, decision, strip_cr, read_line,
}

-- `NGX_SENTINEL_FEED_HEADER`
abbrev pub feed_header : Bytes
feed_header = codes "# sentinel-crowdsec-feed v1"

-- `NGX_SENTINEL_FEED_APPLY_BATCH`
abbrev pub apply_batch : ℕ
apply_batch = 256

-- `NGX_SENTINEL_FEED_MALFORMED_DENOM`
abbrev pub malformed_denom : ℕ
malformed_denom = 4

-- The first line is exactly the version header and does not end the buffer: the lines behind it.
unfoldable pub open_feed : List Line → Option (List Line)
open_feed [] = none
open_feed (l ∷ ls) =
    if length l.text == length feed_header
      && strncmp_eq l.text feed_header (length feed_header)
      && l.ended
    then some ls
    else none

-- `exp == 0` stands for the default lifetime.
unfoldable pub expiry_of : ℕ → ℕ → ℕ → ℕ
expiry_of now ttl expiry = if expiry == 0 then now + ttl else expiry

-- The malformed-fraction guard.
unfoldable pub too_malformed : ℕ → ℕ → Bool
too_malformed count malformed =
    ltb 0 malformed && ltb (count + malformed) (malformed * malformed_denom)

-- `zone->sh->cs_generation++`
unfoldable pub next_generation : ℕ → ℕ
next_generation generation = suc generation % 2 ^ 64

module _ (lib : FeedLib) where
  open lib use {atoi, crc32, sha256}

  -- The counting pass: decisions and malformed lines.
  unfoldable pub count_lines : List Line → ℕ × ℕ
  count_lines [] = (0, 0)
  count_lines (l ∷ ls) =
      let (count, malformed) = count_lines ls in
      elim (read_line lib l.text) [
        | skip ↦ (count, malformed)
        | bad ↦ (count, suc malformed)
        | decision canon action expiry ↦ (suc count, malformed)
      ]

  -- The apply pass. `fits` tells, by the number of decisions applied so far, whether the slab has
  -- room; the first failure ends the pass.
  unfoldable pub apply_lines : (ℕ → Bool) → ℕ → ℕ → ℕ → ℕ → List Line → Zone → Zone
  apply_lines fits generation ttl now applied [] z = z
  apply_lines fits generation ttl now applied (l ∷ ls) z = elim (read_line lib l.text) [
    | skip ↦ apply_lines fits generation ttl now applied ls z
    | bad ↦ apply_lines fits generation ttl now applied ls z
    | decision canon action expiry ↦
        let exp = expiry_of now ttl expiry in
        let d : Decision = record {
          expiry = exp;
          action = action;
          generation = generation;
          redis_pulled = 0;
        } in
        let r = upsert_locked z (sha256 canon) d now (fits applied) in
        let passed = apply_lines fits generation ttl now applied ls z in
        let next = apply_lines fits generation ttl now (suc applied) ls r.1 in
        if leb exp now then passed else elim r.0 [ ok ↦ next | _ ↦ z ]
  ]

  -- Generation bump, apply pass, and the sweeps until one deletes nothing.
  unfoldable pub apply_feed : (ℕ → Bool) → ℕ → ℕ → List Line → Zone → Zone
  apply_feed fits ttl now body z =
      let generation = next_generation z.cs_generation in
      let z' =
        apply_lines fits generation ttl now 0 body (record z { cs_generation = generation }) in
      sweep_all (suc (length z'.queue)) z' generation apply_batch

  -- The trailer's check and then the guard, by the counts and the check's answer.
  unfoldable pub accept_body : List Line → ℕ × ℕ → Rc → Option (List Line)
  unfolding too_malformed
  accept_body body (count, malformed) ok = if too_malformed count malformed then none else some body
  accept_body body counts _ = none

  -- The lines behind the header, cut at the trailer.
  unfoldable pub check_body : Option (List Line × Bytes) → Option (List Line)
  check_body none = none
  check_body (some (body, trailer)) =
      accept_body body (count_lines body)
        (check_trailer atoi (strip_cr trailer) (count_lines body).0 (crc32 (line_bytes body)))

  unfoldable pub check_lines : Option (List Line) → Option (List Line)
  check_lines none = none
  check_lines (some ls) = check_body (find_trailer ls)

  -- The validation: the body's lines if the feed is accepted.
  unfoldable pub validate : Bytes → Option (List Line)
  unfolding open_feed
  validate bytes = check_lines (open_feed (split_lines bytes))

  -- `sentinel_feed_parse`
  unfoldable pub feed_parse : (ℕ → Bool) → Option Zone → Bytes → ℕ → ℕ → Rc × Option Zone
  feed_parse fits none bytes ttl now = (error, none)
  feed_parse fits (some z) [] ttl now = (declined, some z)
  feed_parse fits (some z) (b ∷ bs) ttl now = elim (validate (b ∷ bs)) [
    | none ↦ (declined, some z)
    | some body ↦ (ok, some (apply_feed fits ttl now body z))
  ]
