-- ===== src/Redis/Share.antt =====
-- A ban that one node publishes and another pulls.
use nginx_http_sentinel_modu.Prelude.{
  ℕ, zero, suc, ◌+◌, ◌-◌, ◌≤◌, ◌<◌, ◌≡◌, ◌⊎◌, inl, inr, refl, ap, ◌∙◌, true, false, [], ◌∷◌, ◌++◌,
  some, arith, ltb, leb, ◌==◌, ◌||◌, if◌then◌else◌, length, length-append, take, drop, All-append,
  Bytes, codes, bytes_eq, bytes_eq_refl, strncmp_eq,
}
use nginx_http_sentinel_modu.Prelude.Prefix.{NoNul}
use nginx_http_sentinel_modu.Nginx.{Rc, ok, busy}
use nginx_http_sentinel_modu.Score.{cs_none, cs_ban, cs_captcha, cs_throttle}
use nginx_http_sentinel_modu.Ring.{Entry}
use nginx_http_sentinel_modu.Shm.Zone.{Zone}
use nginx_http_sentinel_modu.Shm.Zone.Find.{Distinct}
use nginx_http_sentinel_modu.Shm.Crowdsec.{
  Decision, upsert_locked, crowdsec_lookup_locked, crowdsec_upsert,
}
use nginx_http_sentinel_modu.Shm.Crowdsec.Table.{crowdsec_upsert_refines, crowdsec_lookup_refines}
use nginx_http_sentinel_modu.Redis.{Client, World, RedisConf, Command, publish, get}
use nginx_http_sentinel_modu.Redis.Pull.{
  text, ReplyLib, until_nul, redis_action, cut_space, live_expiry, ban_value, store_pulled,
  get_reply, ban_infix, get_key,
}
use nginx_http_sentinel_modu.Redis.Push.{action_str, set_command}

take_all : (n : ℕ) (s : Bytes) → length s ≤ n → take n s ≡ s
take_all zero [] h = refl
take_all zero (c ∷ s) h = absurd (omega arith)
take_all (suc n) [] h = refl
take_all (suc n) (c ∷ s) h = ap (◌∷◌ c) (take_all n s (omega arith))

drop-append : (n : ℕ) (s t : Bytes) → drop (length s + n) (s ++ t) ≡ drop n t
drop-append n [] t = let same : 0 + n ≡ n = omega arith in rw same refl
drop-append n (c ∷ s) t =
    let same : length (c ∷ s) + n ≡ suc (length s + n) = omega arith in rw same (drop-append n s t)

until_nul_all : (s : Bytes) → NoNul s → until_nul s ≡ s
unfolding until_nul
until_nul_all [] h = refl
until_nul_all (c ∷ s) h = rw (h.0) (ap (◌∷◌ c) (until_nul_all s h.1))

-- The actions that a decision can have.
abbrev IsTier : ℕ → Type 0
IsTier a = (a ≡ cs_ban) ⊎ (a ≡ cs_captcha) ⊎ (a ≡ cs_throttle)

-- A value is taken apart into its action and its number.
cut-text :
    (a : ℕ) (digits : Bytes)
    → IsTier a
    → (name : Bytes) × (cut_space (action_str a ++ (32 ∷ digits)) ≡ some (name, digits))
      × (redis_action name ≡ a)
      × (length (action_str a) ≤ 8)
unfolding cut_space action_str redis_action strncmp_eq
cut-text a digits (inl e) = rw e (codes "ban", refl, refl, omega arith)
cut-text a digits (inr (inl e)) = rw e (codes "captcha", refl, refl, omega arith)
cut-text a digits (inr (inr e)) = rw e (codes "throttle", refl, refl, omega arith)

-- What is published for an entry, when the address and the key fit.
published :
    (strlen : ℕ) (render : ℕ → Bytes) (prefix : Bytes) (now : ℕ) (e : Entry)
    → IsTier e.action
    → 0 < length e.ip
    → length e.ip < strlen
    → length prefix + (5 + length e.ip) ≤ strlen + 64
    → length (render e.expiry) ≤ 20
    → now < e.expiry
    → set_command strlen render prefix now e
      ≡ some (
          publish
            (prefix ++ (ban_infix ++ e.ip))
            (action_str e.action ++ (32 ∷ render e.expiry))
            (e.expiry - now))
unfolding set_command
published strlen render prefix now e t a b k d x =
    let (name, cut, same, short) = cut-text e.action (render e.expiry) t in
    let klen = length-append prefix (ban_infix ++ e.ip) in
    let vlen = length-append (action_str e.action) (32 ∷ render e.expiry) in
    let key = take_all (strlen + 64) (prefix ++ (ban_infix ++ e.ip)) (omega (arith, klen, k)) in
    let value =
      take_all 64 (action_str e.action ++ (32 ∷ render e.expiry)) (omega (arith, vlen, short, d)) in
    let fits : (length e.ip == 0 || leb strlen (length e.ip)) ≡ false = ground arith in
    let live : leb e.expiry now ≡ false = ground arith in rw (fits, live, key, value) refl

-- The GET that another node issues for the key.
fetched :
    (strlen : ℕ) (w : World) (conf : RedisConf) (c : Client) (ip : Bytes)
    → NoNul conf.prefix
    → NoNul ip
    → 0 < length ip
    → length ip < strlen
    → ((cmd : Command) → w.accepts cmd ≡ true)
    → let key = conf.prefix ++ (ban_infix ++ ip) in
      get_key strlen w conf (text key) c ≡ record c { sent = c.sent ++ (get key ip ∷ []) }
unfolding get_key
fetched strlen w conf c ip m n a b acc =
    let key = conf.prefix ++ (ban_infix ++ ip) in
    let plen = length conf.prefix + length ban_infix in
    let klen = length-append conf.prefix (ban_infix ++ ip) in
    let whole : until_nul key ≡ key =
      until_nul_all key
        (All-append _ conf.prefix (ban_infix ++ ip) m (refl, (refl, (refl, (refl, (refl, n)))))) in
    let suffix : drop plen key ≡ ip =
      drop-append (length ban_infix) conf.prefix (ban_infix ++ ip) in
    let long : (leb (length key) plen || leb strlen (length key - plen)) ≡ false =
      ground (arith, klen) in
    rw (long, whole, suffix, acc (get key ip)) refl

get_reply_ban :
    (lib : ReplyLib) (z : Zone) (value ip : Bytes) (now action expiry : ℕ)
    → ban_value lib value now ≡ some (action, expiry)
    → get_reply lib (some z) (text value) ip now true
      ≡ store_pulled lib z (until_nul ip) action expiry now true
unfolding get_reply ban_value cut_space
get_reply_ban lib z [] ip now action expiry h = cc
get_reply_ban lib z (c ∷ s) ip now action expiry h = rw (h, get_reply) refl

-- What is stored when the value of a GET is a ban that is still to run.
stored :
    (lib : ReplyLib) (z : Zone) (action : ℕ) (digits ip : Bytes) (expiry now : ℕ)
    → IsTier action
    → NoNul ip
    → lib.atoi digits ≡ some expiry
    → now < expiry
    → get_reply lib (some z) (text (action_str action ++ (32 ∷ digits))) ip now true
      ≡ store_pulled lib z ip action expiry now true
unfolding live_expiry ban_value
stored lib z action digits ip expiry now t n a h =
    let (name, cut, same, short) = cut-text action digits t in
    let value : Bytes = action_str action ++ (32 ∷ digits) in
    let late : leb expiry now ≡ false = ground arith in
    let live : live_expiry lib digits now ≡ some expiry = rw (a, live_expiry) (rw late refl) in
    let read : ban_value lib value now ≡ some (action, expiry) =
      rw (cut, ban_value) (rw (live, same) refl) in
    get_reply_ban lib z value ip now action expiry read
    ∙ ap (λ x. store_pulled lib z x action expiry now true) (until_nul_all ip n)

in_force :
    (k : Bytes) (later : ℕ) (e : Entry)
    → later < e.expiry
    → (old : Rc × ℕ)
    → Path
        (Rc × ℕ)
        (if bytes_eq k k
          then (if ltb later e.expiry then (busy, e.action) else (ok, cs_none))
          else old)
        (busy, e.action)
in_force k later e h old =
    let now : ltb later e.expiry ≡ true = ground arith in rw (bytes_eq_refl k, now) refl

-- A local ban with a tier and an address, at a time at which it is still to run, is published by
-- the flush of one node. Another node that finds the key issues a GET for it with the address, and
-- the answer puts the ban into force in its ban table, until its expiry, when there is room in the
-- slab. Conditions: prefix and address have no NUL and fit the buffers, and the number that is
-- printed for the expiry is read back.
pub published_ban_pulled :
    (strlen : ℕ) (render : ℕ → Bytes) (lib : ReplyLib) (w : World) (conf : RedisConf) (c : Client)
    (e : Entry) (z : Zone) (sent_at now : ℕ)
    → IsTier e.action
    → NoNul conf.prefix
    → NoNul e.ip
    → 0 < length e.ip
    → length e.ip < strlen
    → length conf.prefix + (5 + length e.ip) ≤ strlen + 64
    → length (render e.expiry) ≤ 20
    → lib.atoi (render e.expiry) ≡ some e.expiry
    → ((cmd : Command) → w.accepts cmd ≡ true)
    → sent_at < e.expiry
    → now < e.expiry
    → Distinct z.queue
    → (key value : Bytes) × (z' : Zone) × (set_command strlen render conf.prefix sent_at e
        ≡ some (publish key value (e.expiry - sent_at)))
      × (get_key strlen w conf (text key) c ≡ record c { sent = c.sent ++ (get key e.ip ∷ []) })
      × (get_reply lib (some z) (text value) e.ip now true ≡ some z')
      × ((later : ℕ)
          → later < e.expiry
          → let (rc, action, rest) = crowdsec_lookup_locked z' (lib.sha256 e.ip) later in
            (rc ≡ busy) × (action ≡ e.action))
unfolding crowdsec_upsert
published_ban_pulled strlen render lib w conf c e z sent_at now t m n a b k d i acc x y u =
    let decision : Decision = record {
      expiry = e.expiry;
      action = e.action;
      generation = z.cs_generation;
      redis_pulled = 1;
    } in
    let (rc, answers, distinct) = crowdsec_upsert_refines z (lib.sha256 e.ip) decision now u in
    let z' = (upsert_locked z (lib.sha256 e.ip) decision now true).1 in
    (
      conf.prefix ++ (ban_infix ++ e.ip),
      action_str e.action ++ (32 ∷ render e.expiry),
      z',
      published strlen render conf.prefix sent_at e t a b k d x,
      fetched strlen w conf c e.ip m n a b acc,
      stored lib z e.action (render e.expiry) e.ip e.expiry now t n i y,
      (λ later h.
          let found =
            (crowdsec_lookup_refines z' (lib.sha256 e.ip) later distinct).0
            ∙ answers later (lib.sha256 e.ip)
            ∙ in_force (lib.sha256 e.ip) later e h _ in
          (ap (λ p. p.0) found, ap (λ p. p.1) found)),
    )
