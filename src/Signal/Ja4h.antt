-- ===== src/Signal/Ja4h.antt =====
-- sentinel_ja4h.c: the JA4H fingerprint of a request. The names of nginx's constants and its
-- `ngx_strncasecmp`, `ngx_qsort`, `ngx_tolower` and `SHA256` are a parameter.
pub mod Canon
use nginx_http_sentinel_modu.Prelude.{
  ℕ, zero, suc, ◌+◌, ◌-◌, ◌*◌, ◌/◌, ◌%◌, min, Bool, true, false, not, List, [], ◌∷◌, ◌++◌, map,
  Option, none, some, ltb, leb, ◌==◌, ◌&&◌, ◌||◌, if◌then◌else◌, length, get_or, take, replicate,
  Bytes, codes,
}
use nginx_http_sentinel_modu.Prelude.Int.{ℤ, pos, sub_ℕ, is_zero}
use nginx_http_sentinel_modu.Nginx.{Request, Header}

-- `ngx_qsort` gets the comparison function.
pub record PrintLib : Type 0 where
  pub http_get : ℕ
  pub http_post : ℕ
  pub http_put : ℕ
  pub http_delete : ℕ
  pub http_head : ℕ
  pub http_options : ℕ
  pub http_patch : ℕ
  pub version_20 : ℕ
  pub version_11 : ℕ
  pub strncasecmp : Bytes → Bytes → ℕ → ℤ
  pub tolower : ℕ → ℕ
  pub sort : (Bytes → Bytes → ℤ) → List Bytes → List Bytes
  pub sha256 : Bytes → Bytes

-- `NGX_SENTINEL_JA4H_MAX_HDRS`, `NGX_SENTINEL_JA4H_CANLEN` and `NGX_SENTINEL_JA4H_BIN_LEN`
abbrev max_hdrs : ℕ
max_hdrs = 64

abbrev pub canlen : ℕ
canlen = 4096

abbrev pub bin_len : ℕ
bin_len = 12

-- `name->len == s->len && ngx_strncasecmp (name->data, s->data, s->len) == 0`
unfoldable pub same_name : PrintLib → Bytes → Bytes → Bool
same_name lib name s = length name == length s && is_zero (lib.strncasecmp name s (length s))

-- `ja4h_header_skip`
unfoldable pub header_skip : PrintLib → Bytes → Bool
header_skip lib name = same_name lib name (codes "cookie") || same_name lib name (codes "referer")

-- `ja4h_strcmp`
unfoldable pub ja4h_strcmp : PrintLib → Bytes → Bytes → ℤ
ja4h_strcmp lib a b =
    let rc = lib.strncasecmp a b (min (length a) (length b)) in
    if is_zero rc then sub_ℕ (length a) (length b) else rc

-- The two letters of the method.
unfoldable pub method_str : PrintLib → ℕ → Bytes
method_str lib m =
    if m == lib.http_get
    then codes "ge"
    else if m == lib.http_post
    then codes "po"
    else if m == lib.http_put
    then codes "pu"
    else if m == lib.http_delete
    then codes "de"
    else if m == lib.http_head
    then codes "he"
    else if m == lib.http_options
    then codes "op"
    else if m == lib.http_patch
    then codes "pa"
    else codes "xx"

unfoldable pub version_str : PrintLib → ℕ → Bytes
version_str lib v =
    if leb lib.version_20 v
    then codes "20"
    else if leb lib.version_11 v
    then codes "11"
    else codes "10"

-- What the walk over the headers collects, the names in their order.
pub record Walk : Type 0 where
  pub has_cookie : Bool
  pub has_referer : Bool
  pub names : List Bytes

abbrev pub add_name : PrintLib → Bytes → List Bytes → List Bytes
add_name lib key names =
    if header_skip lib key
    then names
    else if ltb (length names) max_hdrs
    then names ++ (key ∷ [])
    else names

-- One header; the names `Cookie` and `Referer` exclude each other.
unfoldable pub walk_header : PrintLib → Walk → Header → Walk
walk_header lib w h =
    let cookie = same_name lib h.key (codes "Cookie") in
    let referer = same_name lib h.key (codes "Referer") in
    if h.hash == 0 then w else record {
      has_cookie = w.has_cookie || cookie;
      has_referer = w.has_referer || (not cookie && referer);
      names = add_name lib h.key w.names;
    }

unfoldable pub walk_part : PrintLib → Walk → List Header → Walk
walk_part lib w [] = w
walk_part lib w (h ∷ hs) = walk_part lib (walk_header lib w h) hs

unfoldable pub walk_parts : PrintLib → Walk → List (List Header) → Walk
walk_parts lib w [] = w
walk_parts lib w (p ∷ ps) = walk_parts lib (walk_part lib w p) ps

-- The names in canonical order; a single name is not sorted.
unfoldable pub sorted_names : PrintLib → List Bytes → List Bytes
sorted_names lib names = if ltb 1 (length names) then lib.sort (ja4h_strcmp lib) names else names

-- The language tag up to a comma, a semicolon or a space.
unfoldable pub first_tag : Bytes → Bytes
first_tag [] = []
first_tag (c ∷ s) = if c == b',' || c == b';' || c == 32 then [] else c ∷ first_tag s

abbrev pub lang_of : Option Bytes → Bytes
lang_of none = []
lang_of (some value) = take 32 (first_tag value)

-- The canonical string under construction: its bytes, the jump to the label `overflow`, or a write
-- behind the end of the buffer.
pub data Build : Type 0 where
  fine : Bytes → Build
  overflow overrun : Build

-- `CANAPPEND_STR`, and the checked copy of a header name.
unfoldable pub append : Bytes → Build → Build
append s (fine b) = if leb (canlen - 1) (length b + length s) then overflow else fine (b ++ s)
append s overflow = overflow
append s overrun = overrun

-- `*p++ = c`
unfoldable pub put_byte : ℕ → Build → Build
put_byte c (fine b) = if ltb (length b) canlen then fine (b ++ (c ∷ [])) else overrun
put_byte c overflow = overflow
put_byte c overrun = overrun

-- `*p = '\0'`
unfoldable pub end_string : Build → Build
end_string (fine b) = if ltb (length b) canlen then fine b else overrun
end_string overflow = overflow
end_string overrun = overrun

abbrev pub bar : Bytes
bar = codes "|"

abbrev pub comma : Bytes
comma = codes ","

abbrev pub flag : Bool → ℕ
flag b = b'0' + (if b then 1 else 0)

-- Two bytes without a check, and a separator.
abbrev pub append_pair : ℕ → ℕ → Build → Build
append_pair x y b = append bar (put_byte y (put_byte x b))

-- The loop over the names; `first` is `i == 0`.
unfoldable pub append_names : (ℕ → ℕ) → Bool → List Bytes → Build → Build
append_names tolower first [] b = b
append_names tolower first (n ∷ ns) b =
    append_names tolower false ns (append (map tolower n) (if first then b else append comma b))

-- `nhdr > 99 ? 99 : nhdr`
abbrev pub shown : ℕ → ℕ
shown n = if ltb 99 n then 99 else n

-- The canonical string of a request.
unfoldable pub canonical : PrintLib → Request → Build
canonical lib r =
    let w =
      walk_parts lib (record { has_cookie = false; has_referer = false; names = [] }) r.headers in
    let count = shown (length w.names) in
    let b0 = append (method_str lib r.method) (fine []) in
    let b1 = append bar (append (version_str lib r.http_version) (append bar b0)) in
    let b2 = append_pair (flag w.has_cookie) (flag w.has_referer) b1 in
    let b3 = append_pair (b'0' + count / 10) (b'0' + count % 10) b2 in
    let b4 = append bar (append_names lib.tolower true (sorted_names lib w.names) b3) in
    let lang = lang_of r.accept_language in
    end_string (if length lang == 0 then b4 else append lang b4)

abbrev pub hex_digit : ℕ → ℕ
hex_digit k = get_or (codes "0123456789abcdef") (k % 16) 0

-- The first `n` bytes of a digest in hexadecimal; a digest is longer than that.
unfoldable pub hex_digest : ℕ → Bytes → Bytes
hex_digest zero d = []
hex_digest (suc n) [] = []
hex_digest (suc n) (x ∷ d) = hex_digit (x / 16) ∷ hex_digit x ∷ hex_digest n d

abbrev pub zero_hash : Bytes
zero_hash = replicate (bin_len * 2) b'0'

abbrev print_of : PrintLib → Build → Bytes
print_of lib (fine b) = hex_digest bin_len (lib.sha256 b)
print_of lib _ = zero_hash

-- `sentinel_ja4h_compute`, without the final NUL.
unfoldable pub ja4h_compute : PrintLib → Request → Bytes
ja4h_compute lib r = print_of lib (canonical lib r)
