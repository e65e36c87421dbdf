-- ===== src/Redis/Run/Pulls.antt =====
-- The steps of a pull keep the connection in order.
use nginx_http_sentinel_modu.Prelude.{
  ℕ, ◌+◌, ◌≡◌, inl, inr, refl, true, false, [], ◌∷◌, ◌++◌, Option, arith, ◌&&◌, length, drop,
  Bool-cases,
}
use nginx_http_sentinel_modu.Redis.{is_up, Client, World, RedisConf, scan, get}
use nginx_http_sentinel_modu.Redis.Pull.{
  Reply, missing, text, array, other, Replies, end, cell, pull_step, get_key, get_keys, get_array,
  cursor_of, continue_scan, scan_reply, match_pattern, until_nul, ban_infix,
}
use nginx_http_sentinel_modu.Redis.Run.{start_pull}
use nginx_http_sentinel_modu.Redis.Run.Linked.{IsLinked, sent-IsLinked}

-- A pull step over a connection in order, with the pull flag on or off.
pull_step-IsLinked :
    (strlen : ℕ) (w : World) (conf : RedisConf) (c : Client)
    → IsLinked conf (record c { pull_inflight = false })
    → IsLinked conf (pull_step strlen w conf c)
unfolding pull_step
pull_step-IsLinked strlen w conf c i =
    let cmd = scan c.scan_cursor (match_pattern strlen conf.prefix) in
    elim (Bool-cases (c.ac && is_up c.state && w.accepts cmd)) [
      | inl h ↦ rw h (record {
        delay = i.delay;
        armed = i.armed;
        soon = i.soon;
        low = i.low;
        high = i.high;
        context = i.context;
        attached = i.attached;
        pulls = λ p. ground arith;
        auths = i.auths;
      })
      | inr h ↦ rw h i
    ]

pub idle_pull-IsLinked :
    (conf : RedisConf) (c : Client)
    → IsLinked conf c
    → IsLinked conf (record c { pull_inflight = false })
idle_pull-IsLinked conf c i = record {
  delay = i.delay;
  armed = i.armed;
  soon = i.soon;
  low = i.low;
  high = i.high;
  context = i.context;
  attached = i.attached;
  pulls = λ p. ground arith;
  auths = i.auths;
}

get_key-IsLinked :
    (strlen : ℕ) (w : World) (conf : RedisConf) (k : Reply) (c : Client)
    → IsLinked conf c
    → IsLinked conf (get_key strlen w conf k c)
unfolding get_key
get_key-IsLinked strlen w conf missing c i = i
get_key-IsLinked strlen w conf (array ks) c i = i
get_key-IsLinked strlen w conf other c i = i
get_key-IsLinked strlen w conf (text k) c i =
    let plen = length conf.prefix + length ban_infix in
    let cmd = get (until_nul k) (drop plen k) in
    let i' = sent-IsLinked conf c (c.sent ++ (cmd ∷ [])) i in ground (arith, i, i')

get_keys-IsLinked :
    (strlen : ℕ) (w : World) (conf : RedisConf) (ks : Replies) (c : Client)
    → IsLinked conf c
    → IsLinked conf (get_keys strlen w conf ks c)
unfolding get_keys
get_keys-IsLinked strlen w conf end c i = i
get_keys-IsLinked strlen w conf (cell k ks) c i =
    get_keys-IsLinked strlen w conf ks (get_key strlen w conf k c)
      (get_key-IsLinked strlen w conf k c i)

get_array-IsLinked :
    (strlen : ℕ) (w : World) (conf : RedisConf) (r : Reply) (c : Client)
    → IsLinked conf c
    → IsLinked conf (get_array strlen w conf r c)
get_array-IsLinked strlen w conf missing c i = i
get_array-IsLinked strlen w conf (text s) c i = i
get_array-IsLinked strlen w conf other c i = i
get_array-IsLinked strlen w conf (array ks) c i = get_keys-IsLinked strlen w conf ks c i

cursor-IsLinked :
    (conf : RedisConf) (c : Client) (n : ℕ)
    → IsLinked conf c
    → IsLinked conf (record c { scan_cursor = n })
cursor-IsLinked conf c n i = record {
  delay = i.delay;
  armed = i.armed;
  soon = i.soon;
  low = i.low;
  high = i.high;
  context = i.context;
  attached = i.attached;
  pulls = i.pulls;
  auths = i.auths;
}

continue_scan-IsLinked :
    (strlen : ℕ) (w : World) (conf : RedisConf) (c : Client)
    → IsLinked conf c
    → IsLinked conf (continue_scan strlen w conf c)
unfolding continue_scan
continue_scan-IsLinked strlen w conf c i =
    let stop = idle_pull-IsLinked conf c i in
    let on = pull_step-IsLinked strlen w conf c stop in ground (arith, stop, on)

pub scan_reply-IsLinked :
    (strlen : ℕ) (w : World) (conf : RedisConf) (r : Reply) (c : Client)
    → IsLinked conf c
    → IsLinked conf (scan_reply strlen w conf r c)
unfolding scan_reply
scan_reply-IsLinked strlen w conf missing c i = idle_pull-IsLinked conf c i
scan_reply-IsLinked strlen w conf (text s) c i = idle_pull-IsLinked conf c i
scan_reply-IsLinked strlen w conf other c i = idle_pull-IsLinked conf c i
scan_reply-IsLinked strlen w conf (array end) c i = idle_pull-IsLinked conf c i
scan_reply-IsLinked strlen w conf (array (cell cur end)) c i = idle_pull-IsLinked conf c i
scan_reply-IsLinked strlen w conf (array (cell cur (cell keys (cell k ks)))) c i =
    idle_pull-IsLinked conf c i
scan_reply-IsLinked strlen w conf (array (cell cur (cell keys end))) c i =
    let c' : Client = record c { scan_cursor = cursor_of cur } in
    continue_scan-IsLinked strlen w conf (get_array strlen w conf keys c')
      (get_array-IsLinked strlen w conf keys c' (cursor-IsLinked conf c (cursor_of cur) i))

pull_step-timer :
    (strlen : ℕ) (w : World) (conf : RedisConf) (c : Client) (t : Option ℕ)
    → record (pull_step strlen w conf c) { timer = t }
      ≡ pull_step strlen w conf (record c { timer = t })
unfolding pull_step
pull_step-timer strlen w conf c t =
    let cmd = scan c.scan_cursor (match_pattern strlen conf.prefix) in
    elim (Bool-cases (c.ac && is_up c.state && w.accepts cmd)) [
      | inl h ↦ rw h refl
      | inr h ↦ rw h refl
    ]

pub start_pull-timer :
    (strlen : ℕ) (w : World) (conf : RedisConf) (c : Client) (t : Option ℕ)
    → record (start_pull strlen w conf c) { timer = t }
      ≡ start_pull strlen w conf (record c { timer = t })
unfolding start_pull
start_pull-timer strlen w conf c t = elim (Bool-cases c.pull_inflight) [
  | inl h ↦ simp (h) refl
  | inr h ↦
      simp (h)
        (pull_step-timer strlen w conf (record c { pull_inflight = true; scan_cursor = 0 }) t)
]

pub start_pull-state :
    (strlen : ℕ) (w : World) (conf : RedisConf) (c : Client)
    → (start_pull strlen w conf c).state ≡ c.state
unfolding start_pull pull_step
start_pull-state strlen w conf c = ground arith

pub start_pull-IsLinked :
    (strlen : ℕ) (w : World) (conf : RedisConf) (c : Client)
    → IsLinked conf c
    → IsLinked conf (start_pull strlen w conf c)
unfolding start_pull
start_pull-IsLinked strlen w conf c i =
    let c' : Client = record c { pull_inflight = true; scan_cursor = 0 } in
    let on =
      pull_step-IsLinked strlen w conf c'
        (idle_pull-IsLinked conf (record c { scan_cursor = 0 }) (cursor-IsLinked conf c 0 i)) in
    ground (arith, i, on)
