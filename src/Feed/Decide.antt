-- ===== src/Feed/Decide.antt =====
-- sentinel_feed.c: a decision line `<ip> <action> <expiry>`.
use nginx_http_sentinel_modu.Prelude.{
  ℕ, Bool, true, [], ◌∷◌, Option, none, some, ◌==◌, ◌&&◌, ◌||◌, if◌then◌else◌, leb, any, Bytes,
  codes, length, strncmp_eq,
}
use nginx_http_sentinel_modu.Score.{cs_none, cs_ban, cs_captcha, cs_throttle}
use nginx_http_sentinel_modu.Feed.Trailer.{split_space, is_empty}

-- What the loader calls: `ngx_inet_addr` (`none` is INADDR_NONE), `ngx_inet_ntop`,
-- `ngx_inet6_addr` (`none` is not NGX_OK), `ngx_inet6_ntop`, `ngx_atoi` (`none` is NGX_ERROR),
-- `ngx_crc32_long` and `SHA256`.
pub record FeedLib : Type 0 where
  pub inet_addr : Bytes → Option ℕ
  pub inet_ntop : ℕ → Bytes
  pub inet6_addr : Bytes → Option Bytes
  pub inet6_ntop : Bytes → Bytes
  pub atoi : Bytes → Option ℕ
  pub crc32 : Bytes → ℕ
  pub sha256 : Bytes → Bytes

-- `sentinel_feed_action`
unfoldable pub feed_action : Bytes → ℕ
feed_action p =
    if length p == 3 && strncmp_eq p (codes "ban") 3
    then cs_ban
    else if length p == 7 && strncmp_eq p (codes "captcha") 7
    then cs_captcha
    else if length p == 8 && strncmp_eq p (codes "throttle") 8
    then cs_throttle
    else cs_none

-- A carriage return at the end is tolerated.
unfoldable pub strip_cr : Bytes → Bytes
strip_cr [] = []
strip_cr (c ∷ []) = if c == 13 then [] else c ∷ []
strip_cr (c ∷ d ∷ cs) = c ∷ strip_cr (d ∷ cs)

-- `ll == 0 || line[0] == '#'`
unfoldable pub is_comment : Bytes → Bool
is_comment [] = true
is_comment (c ∷ cs) = c == b'#'

-- The three fields; the third runs to the end of the line and is not empty.
unfoldable pub scan_fields : Bytes → Option (Bytes × Bytes × Bytes)
unfolding split_space
scan_fields line = elim (split_space line) [
  | none ↦ none
  | some (f1, r1) ↦ elim (split_space r1) [
    | none ↦ none
    | some (f2, f3) ↦ if is_empty f3 then none else some (f1, f2, f3)
  ]
]

-- A line is passed over, malformed, or a decision on a canonical address.
pub data Reading : Type 0 where
  skip bad : Reading
  decision : Bytes → ℕ → ℕ → Reading

module _ (lib : FeedLib) where
  open lib use {inet_addr, inet_ntop, inet6_addr, inet6_ntop, atoi}

  -- `sentinel_feed_canon_ip`; `none` is the length 0, which `ngx_inet_ntop` does not return.
  unfoldable pub canon_ip : Bytes → Option Bytes
  canon_ip p =
      if length p == 0 || leb 64 (length p)
      then none
      else if any (λ c. c == b'/') p
      then none
      else elim (inet_addr p) [
        | some v4 ↦ some (inet_ntop v4)
        | none ↦ elim (inet6_addr p) [ some v6 ↦ some (inet6_ntop v6) | none ↦ none ]
      ]

  -- The checks on the fields, in the order of the source.
  unfoldable pub check_fields : Bytes → Bytes → Bytes → Reading
  unfolding canon_ip feed_action
  check_fields f1 f2 f3 = elim (canon_ip f1) [
    | none ↦ bad
    | some canon ↦
        if feed_action f2 == cs_none
        then bad
        else elim (atoi f3) [ none ↦ bad | some expiry ↦ decision canon (feed_action f2) expiry ]
  ]

  -- One line of the body, as both passes read it.
  unfoldable pub read_line : Bytes → Reading
  unfolding is_comment strip_cr scan_fields check_fields
  read_line raw =
      if is_comment raw
      then skip
      else if is_empty (strip_cr raw)
      then skip
      else elim (scan_fields (strip_cr raw)) [
        | none ↦ bad
        | some (f1, f2, f3) ↦ check_fields f1 f2 f3
      ]
