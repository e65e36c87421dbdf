-- ===== src/Feed/Trailer.antt =====
-- sentinel_feed.c: the trailer `%%EOF <count> <crc32hex>`.
use nginx_http_sentinel_modu.Prelude.{
  ℕ, ◌+◌, ◌-◌, ◌*◌, ◌%◌, ◌^◌, Bool, true, false, [], ◌∷◌, Option, none, some, ◌==◌, if◌then◌else◌,
  Bytes, ◌&&◌, leb, ltb, length, strncmp_eq, drop,
}
use nginx_http_sentinel_modu.Nginx.{Rc, ok, declined}
use nginx_http_sentinel_modu.Feed.Lines.{eof_mark}

abbrev pub space : ℕ
space = b' '

-- Up to the first space and behind it; `none` where there is no space.
unfoldable pub split_space : Bytes → Option (Bytes × Bytes)
split_space [] = none
split_space (c ∷ cs) =
    let rest = split_space cs in
    if c == space then some ([], cs) else elim rest [ none ↦ none | some (a, b) ↦ some (c ∷ a, b) ]

-- The value of a hexadecimal digit, of either case.
unfoldable pub hex_digit : ℕ → Option ℕ
hex_digit c =
    if leb b'0' c && leb c b'9'
    then some (c - b'0')
    else if leb b'a' c && leb c b'f'
    then some (c - b'a' + 10)
    else if leb b'A' c && leb c b'F'
    then some (c - b'A' + 10)
    else none

-- `file_crc = (file_crc << 4) | digit` in 32 bits; the low four bits of the shift are 0.
unfoldable pub hex_loop : ℕ → Bytes → Option ℕ
hex_loop acc [] = some acc
hex_loop acc (c ∷ cs) = elim (hex_digit c) [
  | none ↦ none
  | some d ↦ hex_loop ((acc * 16 + d) % 2 ^ 32) cs
]

-- The crc field, which must not be empty.
unfoldable pub check_crc : Bytes → ℕ → Rc
unfolding hex_loop hex_digit
check_crc [] crc = declined
check_crc (c ∷ cs) crc = elim (hex_loop 0 (c ∷ cs)) [
  | none ↦ declined
  | some v ↦ if v == crc then ok else declined
]

-- `p == cstart`
abbrev pub is_empty : Bytes → Bool
is_empty [] = true
is_empty (c ∷ cs) = false

-- The parsed count, and then the crc field.
unfoldable pub check_count : ℕ → ℕ → Bytes → Option ℕ → Rc
unfolding check_crc
check_count count crc hex none = declined
check_count count crc hex (some n) = if n == count then check_crc hex crc else declined

-- The two fields, the first of which must not be empty.
unfoldable pub check_split : (Bytes → Option ℕ) → ℕ → ℕ → Option (Bytes × Bytes) → Rc
check_split atoi count crc none = declined
check_split atoi count crc (some (digits, hex)) =
    if is_empty digits then declined else check_count count crc hex (atoi digits)

-- `sentinel_feed_check_trailer`; `atoi` is `ngx_atoi`, `none` its NGX_ERROR.
unfoldable pub check_trailer : (Bytes → Option ℕ) → Bytes → ℕ → ℕ → Rc
unfolding split_space
check_trailer atoi t count crc =
    if ltb (length t) 9
    then declined
    else if strncmp_eq t eof_mark 6
    then check_split atoi count crc (split_space (drop 6 t))
    else declined
