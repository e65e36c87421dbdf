-- ===== src/Signal/Agent.antt =====
-- sentinel_botua.c: known crawlers and scanners by a substring of the User-Agent.
pub mod Substring
use nginx_http_sentinel_modu.Prelude.{
  ℕ, Bool, true, false, List, [], ◌∷◌, Option, none, some, ◌&&◌, ◌||◌, ◌==◌, ltb, if◌then◌else◌,
  any, length, Bytes, codes, strncmp_eq,
}
use nginx_http_sentinel_modu.Nginx.{Request}
use nginx_http_sentinel_modu.Score.{Inputs}

-- `SENTINEL_BOT_UA_MIN_LEN`
abbrev bot_ua_min_len : ℕ
bot_ua_min_len = 5

-- `ua[i] == sub[0]`
abbrev pub head_eq : Bytes → Bytes → Bool
head_eq (x ∷ xs) (y ∷ ys) = x == y
head_eq _ _ = false

-- The loop of ua_contains over the positions that leave room for the substring.
unfoldable pub find_from : Bytes → Bytes → Bool
find_from [] sub = false
find_from (x ∷ ua) sub =
    if ltb (length (x ∷ ua)) (length sub)
    then false
    else if head_eq (x ∷ ua) sub && strncmp_eq (x ∷ ua) sub (length sub)
    then true
    else find_from ua sub

-- `ua_contains`
unfoldable pub ua_contains : Bytes → Bytes → Bool
ua_contains ua sub =
    if length sub == 0 || ltb (length ua) (length sub) then false else find_from ua sub

abbrev good_ua_substrings : List Bytes
good_ua_substrings =
    codes "Googlebot"
    ∷ codes "Googlebot-Image"
    ∷ codes "Googlebot-News"
    ∷ codes "Googlebot-Video"
    ∷ codes "Bingbot"
    ∷ codes "Slurp"
    ∷ codes "DuckDuckBot"
    ∷ codes "Baiduspider"
    ∷ codes "YandexBot"
    ∷ codes "facebot"
    ∷ codes "ia_archiver"
    ∷ codes "UptimeRobot"
    ∷ codes "Pingdom"
    ∷ []

abbrev bad_ua_substrings : List Bytes
bad_ua_substrings =
    codes "sqlmap"
    ∷ codes "nikto"
    ∷ codes "nmap"
    ∷ codes "masscan"
    ∷ codes "ZGrab"
    ∷ codes "zgrab"
    ∷ codes "Nuclei"
    ∷ codes "nuclei"
    ∷ codes "python-requests"
    ∷ codes "Go-http-client/1.1"
    ∷ codes "curl/7"
    ∷ codes "libwww-perl"
    ∷ codes "WPScan"
    ∷ codes "wpscan"
    ∷ codes "Acunetix"
    ∷ codes "acunetix"
    ∷ codes "Metasploit"
    ∷ codes "metasploit"
    ∷ codes "Burp"
    ∷ codes "dirbuster"
    ∷ codes "DirBuster"
    ∷ codes "gobuster"
    ∷ codes "ffuf"
    ∷ codes "feroxbuster"
    ∷ codes "WordPress/"
    ∷ []

-- `sentinel_botua_signal`
unfoldable pub botua_signal : Request → Inputs → Inputs
botua_signal r i = elim r.user_agent [
  | none ↦ record i { bot_ua = true; known_good_ua = false }
  | some ua ↦
      if ltb (length ua) bot_ua_min_len
      then record i { bot_ua = true; known_good_ua = false }
      else if any (ua_contains ua) good_ua_substrings
      then record i { bot_ua = false; known_good_ua = true }
      else record i { bot_ua = any (ua_contains ua) bad_ua_substrings; known_good_ua = false }
]
