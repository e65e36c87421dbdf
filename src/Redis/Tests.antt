-- ===== src/Redis/Tests.antt =====
-- The theorems on the Redis client at a client that is down and a ring with one ban.
use nginx_http_sentinel_modu.Prelude.{
  ℕ, ◌+◌, ◌-◌, ◌≡◌, ◌<◌, ◌∙◌, refl, true, false, List, [], ◌∷◌, ◌++◌, Option, some, none, arith,
  codes, length, length-set, length-replicate, replicate, set, ltb, if◌then◌else◌, Bytes, inl, inr,
}
use nginx_http_sentinel_modu.Prelude.Prefix.{NoNul}
use nginx_http_sentinel_modu.Nginx.{busy}
use nginx_http_sentinel_modu.Score.{cs_captcha}
use nginx_http_sentinel_modu.Ring.{push_ring, Entry, empty_entry, Ring, used}
use nginx_http_sentinel_modu.Ring.Fifo.{IsRing, queue}
use nginx_http_sentinel_modu.Shm.Zone.{Zone}
use nginx_http_sentinel_modu.Shm.Crowdsec.{crowdsec_lookup_locked}
use nginx_http_sentinel_modu.Redis.{Client, World, RedisConf, Command, get, publish, released, up}
use nginx_http_sentinel_modu.Redis.Cursor.{parse_cursor, decimal, parse_cursor_lem}
use nginx_http_sentinel_modu.Redis.Pull.{ReplyLib, text, get_key, get_reply, match_pattern}
use nginx_http_sentinel_modu.Redis.Push.{set_command, flush_push}
use nginx_http_sentinel_modu.Redis.Pattern.{match_pattern_lem}
use nginx_http_sentinel_modu.Redis.Publish.{commands_of, flush_push_queue}
use nginx_http_sentinel_modu.Redis.Share.{published_ban_pulled}
use nginx_http_sentinel_modu.Redis.Run.{
  first_client, Shared, tick, connected, auth_answer, handle, event, here, next, Reach,
}
use nginx_http_sentinel_modu.Redis.Run.Linked.{IsLinked}
use nginx_http_sentinel_modu.Redis.Run.Recover.{handle_all, tick_down, recovers}
use nginx_http_sentinel_modu.Redis.Run.Steps.{Reach-IsLinked}

abbrev world : World
world = record {
  exiting = false;
  opened = true;
  attached = true;
  accepts = λ cmd. true;
  freed = released ∷ [];
}

abbrev conf : RedisConf
conf = record { password = codes "secret"; prefix = codes "sentinel"; interval = 10 }

abbrev strlen : ℕ
strlen = 65

-- A number is printed as one byte.
abbrev render : ℕ → Bytes
render n = n ∷ []

abbrev read : Bytes → Option ℕ
read [] = none
read (c ∷ s) = some c

abbrev lib : ReplyLib
lib = record { atoi = read; sha256 = λ b. b }

abbrev ban_entry : Entry
ban_entry = record { ip = codes "192.0.2.1"; action = cs_captcha; expiry = 900 }

abbrev ring : Ring
ring = record {
  head = 1;
  tail = 0;
  dropped = 0;
  ring = set (replicate push_ring empty_entry) 0 ban_entry;
}

ring_IsRing : IsRing ring
unfolding used
ring_IsRing = record {
  head = omega arith;
  tail = omega arith;
  bound = omega arith;
  size =
      length-set (replicate push_ring empty_entry) 0 ban_entry
      ∙ length-replicate push_ring empty_entry;
}

abbrev zone : Zone
zone = record { interval = 600; block = 0; threshold = 0; cs_generation = 3; queue = [] }

abbrev up_client : Client
up_client = record first_client { state = up; ac = true; conn = true }

-- A tick, the connect, and the loss of the connection.
abbrev start : Shared
start = (first_client, some ring)

abbrev after_tick : Shared
after_tick = handle strlen render conf world (tick 0) start

abbrev after_connect : Shared
after_connect = handle strlen render conf world (connected true) after_tick

after_tick_ac : after_tick.0.ac ≡ true
unfolding handle
after_tick_ac =
    (tick_down strlen render conf world refl refl refl (λ cmd. refl) 0 first_client (some ring)
      refl).0

prefix_NoNul : NoNul conf.prefix
prefix_NoNul = (refl, (refl, (refl, (refl, (refl, (refl, (refl, (refl, tt))))))))

ip_NoNul : NoNul ban_entry.ip
ip_NoNul = (refl, (refl, (refl, (refl, (refl, (refl, (refl, (refl, (refl, tt)))))))))

run : Reach strlen render conf start after_connect
run =
    next (next here (event world (tick 0) start refl tt))
      (event world (connected true) after_tick refl after_tick_ac)

Reach-IsLinked_example : IsLinked conf after_connect.0
Reach-IsLinked_example = Reach-IsLinked strlen render conf (some ring) after_connect run

recovers_example :
    let answers = tick 0 ∷ connected true ∷ auth_answer true ∷ tick 100 ∷ [] in
    let s' = handle_all strlen render conf world answers start in
    (r' : Ring) × (before after : List Command) × (s'.0.state ≡ up)
    × (s'.1 ≡ some r')
    × IsRing r'
    × (queue r' ≡ [])
    × (s'.0.sent ≡ before ++ (commands_of strlen render conf.prefix 100 (queue ring) ++ after))
recovers_example =
    recovers strlen render conf world first_client ring 0 100 refl refl refl (λ cmd. refl) refl
      ring_IsRing

flush_push_queue_example :
    (r' : Ring) × IsRing r'
    × (queue r' ≡ [])
    × (flush_push strlen render world conf 100 up_client (some ring) ≡ (
      record up_client {
        sent = up_client.sent ++ commands_of strlen render conf.prefix 100 (queue ring);
      },
      some r',
    ))
flush_push_queue_example =
    flush_push_queue strlen render world conf 100 up_client ring ring_IsRing refl refl (λ cmd. refl)

published_ban_pulled_example :
    (key value : Bytes) × (z' : Zone) × (set_command strlen render conf.prefix 100 ban_entry
      ≡ some (publish key value (ban_entry.expiry - 100)))
    × (get_key strlen world conf (text key) first_client
        ≡ record first_client { sent = first_client.sent ++ (get key ban_entry.ip ∷ []) })
    × (get_reply lib (some zone) (text value) ban_entry.ip 110 true ≡ some z')
    × ((later : ℕ)
        → later < ban_entry.expiry
        → let (rc, action, rest) = crowdsec_lookup_locked z' (lib.sha256 ban_entry.ip) later in
          (rc ≡ busy) × (action ≡ ban_entry.action))
published_ban_pulled_example =
    published_ban_pulled strlen render lib world conf first_client ban_entry zone 100 110
      (inr (inl refl)) prefix_NoNul ip_NoNul (omega arith) (omega arith) (omega arith) (omega arith)
      refl (λ cmd. refl) (omega arith) (omega arith) tt

parse_cursor_lem_example : parse_cursor (codes "17" ++ codes " ") ≡ decimal (codes "17")
parse_cursor_lem_example =
    parse_cursor_lem (codes "17") (codes " ") (refl, (refl, tt)) refl (omega arith)

match_pattern_lem_example : match_pattern strlen conf.prefix ≡ (
    if ltb (length conf.prefix + 6) (strlen + 64)
    then some (conf.prefix ++ codes ":ban:*")
    else none)
match_pattern_lem_example = match_pattern_lem strlen conf.prefix prefix_NoNul
