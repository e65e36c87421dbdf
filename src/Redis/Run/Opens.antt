-- ===== src/Redis/Run/Opens.antt =====
-- The connect and the end of the timer handler keep the connection in order.
use nginx_http_sentinel_modu.Prelude.{
  ℕ, ◌*◌, ◌≤◌, ◌≡◌, inl, inr, ◌⊎◌, refl, sym, ap, ◌∙◌, Bool, true, false, not, some, arith, ◌==◌,
  if◌then◌else◌, length, Bool-cases,
}
use nginx_http_sentinel_modu.Redis.{
  LinkState, down, connecting, up, is_down, is_up, Client, World, RedisConf, backoff_max,
  schedule_reconnect, teardown, authenticate, connect, open_link, auth,
}
use nginx_http_sentinel_modu.Redis.Run.{rearm}
use nginx_http_sentinel_modu.Redis.Run.Linked.{
  IsLinked, IsIdle, schedule-IsLinked, teardown-IsLinked,
}

pub timed-IsLinked :
    (conf : RedisConf) (c : Client) (d : ℕ)
    → (d ≤ backoff_max) ⊎ (d ≡ conf.interval * 1000)
    → IsLinked conf c
    → IsLinked conf (record c { timer = some d })
timed-IsLinked conf c d h i = record {
  delay = d;
  armed = refl;
  soon = h;
  low = i.low;
  high = i.high;
  context = i.context;
  attached = i.attached;
  pulls = i.pulls;
  auths = i.auths;
}

-- The end of the timer handler, over a connection in order and over one that is not down.
rearm-IsLinked :
    (w : World) (conf : RedisConf) (st : LinkState) (c : Client)
    → w.exiting ≡ false
    → IsLinked conf c
    → IsLinked conf (rearm st w conf c)
unfolding rearm
rearm-IsLinked w conf down c x i = i
rearm-IsLinked w conf connecting c x i =
    rw x (timed-IsLinked conf c (conf.interval * 1000) (inr refl) i)
rearm-IsLinked w conf up c x i = rw x (timed-IsLinked conf c (conf.interval * 1000) (inr refl) i)

pub rearm_live :
    (w : World) (conf : RedisConf) (st : LinkState) (c : Client)
    → w.exiting ≡ false
    → is_down st ≡ false
    → rearm st w conf c ≡ record c { timer = some (conf.interval * 1000) }
unfolding rearm
rearm_live w conf down c x h = absurd (ground arith)
rearm_live w conf connecting c x h = rw x refl
rearm_live w conf up c x h = rw x refl

authenticate-IsLinked :
    (w : World) (conf : RedisConf) (c : Client)
    → w.exiting ≡ false
    → IsIdle c
    → let c' = authenticate w conf (record c { ac = true; state = connecting; conn = true }) in
      IsLinked conf (rearm c'.state w conf c')
unfolding authenticate rearm
authenticate-IsLinked w conf c x i =
    let opened : Client = record c { ac = true; state = connecting; conn = true } in
    let pending : Client = record opened { auth_pending = true } in
    let undone = schedule_reconnect w.exiting (teardown w pending) in
    let torn : IsLinked conf undone = teardown-IsLinked conf w pending x i.low i.high in
    elim (Bool-cases (length conf.password == 0)) [
      | inl h ↦
          rw (h, x)
            (record {
              delay = conf.interval * 1000;
              armed = refl;
              soon = inr refl;
              low = i.low;
              high = i.high;
              context = refl;
              attached = λ p. refl;
              pulls = λ p. ground (arith, i.pulls);
              auths = λ p. refl;
            })
      | inr h ↦ elim (Bool-cases (w.accepts (auth conf.password))) [
        | inl a ↦
            rw (h, a, x)
              (record {
                delay = conf.interval * 1000;
                armed = refl;
                soon = inr refl;
                low = i.low;
                high = i.high;
                context = refl;
                attached = λ p. refl;
                pulls = λ p. ground (arith, i.pulls);
                auths = λ p. refl;
              })
        | inr a ↦ rw (h, a) (rearm-IsLinked w conf undone.state undone x torn)
      ]
    ]

pub connect_down :
    (w : World) (conf : RedisConf) (c : Client)
    → c.state ≡ down
    → connect w conf c ≡ open_link w conf c
unfolding connect
connect_down w conf c h = ap (λ st. if is_down st then open_link w conf c else c) h

-- A connect from the idle state, whether or not the timer was armed before.
pub connect-IsLinked :
    (w : World) (conf : RedisConf) (c : Client)
    → w.exiting ≡ false
    → IsIdle c
    → IsLinked conf (rearm (connect w conf c).state w conf (connect w conf c))
unfolding open_link
connect-IsLinked w conf c x i =
    let idle : Client = record c { ac = false; state = down } in
    let failed = schedule_reconnect w.exiting c in
    let dropped = schedule_reconnect w.exiting idle in
    let undone : IsLinked conf failed = rw x (schedule-IsLinked conf c i) in
    let reset : IsLinked conf dropped = rw x (
      schedule-IsLinked conf idle (record {
        low = i.low;
        high = i.high;
        state = refl;
        ac = refl;
        pulls = i.pulls;
        auths = i.auths;
      })) in
    let tried = authenticate-IsLinked w conf c x i in
    rw (connect_down w conf c i.state) (elim (Bool-cases w.opened) [
      | inr o ↦ simp (o) (rearm-IsLinked w conf failed.state failed x undone)
      | inl o ↦ elim (Bool-cases w.attached) [
        | inr a ↦ simp (o, a) (rearm-IsLinked w conf dropped.state dropped x reset)
        | inl a ↦ simp (o, a) tried
      ]
    ])

is_down_iff : (st : LinkState) → not (is_down st) ≡ false → st ≡ down
is_down_iff down h = refl
is_down_iff connecting h = cc
is_down_iff up h = cc

down_pulls : (b : Bool) (st : LinkState) → (b ≡ true → is_up st ≡ true) → st ≡ down → b ≡ false
down_pulls true st h e = sym (h refl) ∙ ap is_up e
down_pulls false st h e = refl

imp_false : (b a : Bool) → (b ≡ true → a ≡ true) → a ≡ false → b ≡ false
imp_false true a h e = sym (h refl) ∙ e
imp_false false a h e = refl

pub down-IsIdle : (conf : RedisConf) (c : Client) → c.ac ≡ false → IsLinked conf c → IsIdle c
down-IsIdle conf c h i = record {
  low = i.low;
  high = i.high;
  state = is_down_iff c.state (sym i.context ∙ h);
  ac = h;
  pulls = down_pulls c.pull_inflight c.state i.pulls (is_down_iff c.state (sym i.context ∙ h));
  auths = imp_false c.auth_pending c.ac i.auths h;
}
