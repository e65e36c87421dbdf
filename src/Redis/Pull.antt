-- ===== src/Redis/Pull.antt =====
-- sentinel_redis.c: the pull of remote bans, SCAN and then GET for each key. `strlen` is
-- NGX_SOCKADDR_STRLEN; an allocation that may fail is part of `World.accepts`: either way the GET
-- is not issued.
use nginx_http_sentinel_modu.Prelude.{
  ℕ, ◌+◌, ◌-◌, Bool, false, [], ◌∷◌, ◌++◌, Option, none, some, leb, ◌==◌, ◌&&◌, ◌||◌, if◌then◌else◌,
  length, take, drop, Bytes, codes, strncmp_eq,
}
use nginx_http_sentinel_modu.Score.{cs_ban, cs_captcha, cs_throttle}
use nginx_http_sentinel_modu.Shm.Zone.{Zone}
use nginx_http_sentinel_modu.Shm.Crowdsec.{crowdsec_upsert}
use nginx_http_sentinel_modu.Redis.{Client, World, RedisConf, scan, get, is_up}
use nginx_http_sentinel_modu.Redis.Cursor.{parse_cursor}

-- `redisReply`: nothing, a string, an array, or another type (an error among them).
mutual
  pub data Reply : Type 0 where
    missing : Reply
    text : Bytes → Reply
    array : Replies → Reply
    other : Reply

  pub data Replies : Type 0 where
    end : Replies
    cell : Reply → Replies → Replies

-- The C string in a buffer, `none` when the buffer has no NUL.
unfoldable pub c_string : Bytes → Option Bytes
c_string [] = none
c_string (c ∷ b) =
    if c == 0 then some [] else elim (c_string b) [ none ↦ none | some s ↦ some (c ∷ s) ]

-- The C string in data behind which hiredis has put a NUL.
unfoldable pub until_nul : Bytes → Bytes
until_nul [] = []
until_nul (c ∷ b) = if c == 0 then [] else c ∷ until_nul b

-- `sentinel_redis_action`
unfoldable pub redis_action : Bytes → ℕ
redis_action s =
    if length s == 3 && strncmp_eq s (codes "ban") 3
    then cs_ban
    else if length s == 7 && strncmp_eq s (codes "captcha") 7
    then cs_captcha
    else if length s == 8 && strncmp_eq s (codes "throttle") 8
    then cs_throttle
    else cs_ban

-- `memchr (str, ' ', len)`: what stands before and behind the first space.
unfoldable pub cut_space : Bytes → Option (Bytes × Bytes)
cut_space [] = none
cut_space (c ∷ s) =
    if c == 32
    then some ([], s)
    else elim (cut_space s) [ none ↦ none | some (a, b) ↦ some (c ∷ a, b) ]

-- The two functions of libraries that a GET reply goes through: `ngx_atoi` and `SHA256`.
pub record ReplyLib : Type 0 where
  pub atoi : Bytes → Option ℕ
  pub sha256 : Bytes → Bytes

-- The upsert of a pulled ban, in the table's current generation.
abbrev pub store_pulled : ReplyLib → Zone → Bytes → ℕ → ℕ → ℕ → Bool → Option Zone
store_pulled lib z ip action expiry now fits =
    (crowdsec_upsert (some z) (lib.sha256 ip)
      (record { expiry = expiry; action = action; generation = z.cs_generation; redis_pulled = 1 })
      now fits).1

-- The expiry that a reply carries, when it is a number and still to come.
unfoldable pub live_expiry : ReplyLib → Bytes → ℕ → Option ℕ
live_expiry lib s now = elim (lib.atoi s) [
  | none ↦ none
  | some e ↦ if leb e now then none else some e
]

-- The value `<action> <expiry>` of a reply.
unfoldable pub ban_value : ReplyLib → Bytes → ℕ → Option (ℕ × ℕ)
ban_value lib value now = elim (cut_space value) [
  | none ↦ none
  | some (a, e) ↦ elim (live_expiry lib e now) [
    | none ↦ none
    | some expiry ↦ some (redis_action a, expiry)
  ]
]

-- `sentinel_redis_get_reply`; `ip` is the heap copy that the GET was issued with.
unfoldable pub get_reply : ReplyLib → Option Zone → Reply → Bytes → ℕ → Bool → Option Zone
get_reply lib (some z) (text (c ∷ s)) ip now fits = elim (ban_value lib (c ∷ s) now) [
  | none ↦ some z
  | some (action, expiry) ↦ store_pulled lib z (until_nul ip) action expiry now fits
]
get_reply lib z reply ip now fits = z

-- `<prefix>:ban:` and the pattern of the SCAN in its buffer, its NUL included.
abbrev pub ban_infix : Bytes
ban_infix = codes ":ban:"

unfoldable pub match_pattern : ℕ → Bytes → Option Bytes
match_pattern strlen prefix = c_string (take (strlen + 64) (prefix ++ (codes ":ban:*" ++ (0 ∷ []))))

-- `sentinel_redis_pull_step`
unfoldable pub pull_step : ℕ → World → RedisConf → Client → Client
pull_step strlen w conf c =
    let cmd = scan c.scan_cursor (match_pattern strlen conf.prefix) in
    if c.ac && is_up c.state && w.accepts cmd
    then record c { sent = c.sent ++ (cmd ∷ []) }
    else record c { pull_inflight = false }

-- The GET for one element of the key array.
unfoldable pub get_key : ℕ → World → RedisConf → Reply → Client → Client
get_key strlen w conf (text k) c =
    let plen = length conf.prefix + length ban_infix in
    let cmd = get (until_nul k) (drop plen k) in
    if leb (length k) plen || leb strlen (length k - plen)
    then c
    else if w.accepts cmd
    then record c { sent = c.sent ++ (cmd ∷ []) }
    else c
get_key strlen w conf _ c = c

unfoldable pub get_keys : ℕ → World → RedisConf → Replies → Client → Client
get_keys strlen w conf end c = c
get_keys strlen w conf (cell k ks) c = get_keys strlen w conf ks (get_key strlen w conf k c)

abbrev pub get_array : ℕ → World → RedisConf → Reply → Client → Client
get_array strlen w conf (array ks) c = get_keys strlen w conf ks c
get_array strlen w conf _ c = c

abbrev pub cursor_of : Reply → ℕ
cursor_of (text s) = parse_cursor s
cursor_of _ = 0

-- The end of sentinel_redis_scan_reply: another step or the end of the pass.
unfoldable pub continue_scan : ℕ → World → RedisConf → Client → Client
continue_scan strlen w conf c =
    let next = pull_step strlen w conf c in
    if c.scan_cursor == 0 then record c { pull_inflight = false } else next

-- `sentinel_redis_scan_reply`
unfoldable pub scan_reply : ℕ → World → RedisConf → Reply → Client → Client
scan_reply strlen w conf (array (cell cur (cell keys end))) c =
    continue_scan strlen w conf
      (get_array strlen w conf keys (record c { scan_cursor = cursor_of cur }))
scan_reply strlen w conf _ c = record c { pull_inflight = false }
