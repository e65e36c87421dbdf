-- ===== src/Redis/Run/Recover.antt =====
-- A client that is down publishes the waiting bans once the server answers.
use nginx_http_sentinel_modu.Prelude.{
  ℕ, ◌≡◌, inl, inr, refl, sym, ap, ◌∙◌, true, false, List, [], ◌∷◌, ◌++◌, Option, none, some, arith,
  ◌==◌, ◌&&◌, length, Bytes, Bool-cases,
}
use nginx_http_sentinel_modu.Ring.{Ring}
use nginx_http_sentinel_modu.Ring.Fifo.{IsRing, queue}
use nginx_http_sentinel_modu.Redis.{
  LinkState, down, connecting, up, Client, World, RedisConf, Command, authenticate, connect,
  open_link, on_connect, auth_reply, backoff_min, is_up, scan,
}
use nginx_http_sentinel_modu.Redis.Push.{flush_push}
use nginx_http_sentinel_modu.Redis.Publish.{commands_of, flush_push_queue}
use nginx_http_sentinel_modu.Redis.Run.{
  Shared, Event, tick, connected, auth_answer, handle, timer_handler, work, rearm, flush_and_pull,
  start_pull,
}
use nginx_http_sentinel_modu.Redis.Run.Opens.{connect_down}
use nginx_http_sentinel_modu.Redis.Run.Pulls.{start_pull-state}
use nginx_http_sentinel_modu.Redis.Pull.{pull_step, match_pattern}
use mathlib.Core.List.{append-nil, append_assoc}

-- The events of a successful connection: the timer, the connect, the answer to AUTH, the timer.
abbrev pub handle_all : ℕ → (ℕ → Bytes) → RedisConf → World → List Event → Shared → Shared
handle_all strlen render conf w [] s = s
handle_all strlen render conf w (e ∷ es) s =
    handle_all strlen render conf w es (handle strlen render conf w e s)

module _ (strlen : ℕ) (render : ℕ → Bytes) (conf : RedisConf) (w : World)
    (running : w.exiting ≡ false) (opened : w.opened ≡ true) (attached : w.attached ≡ true)
    (accepts : (cmd : Command) → w.accepts cmd ≡ true) where
  connect-ac : (c : Client) → c.state ≡ down → (connect w conf c).ac ≡ true
  unfolding open_link authenticate
  connect-ac c e = rw (connect_down w conf c e) (
      simp (opened) (
        simp (attached) (elim (Bool-cases (length conf.password == 0)) [
          | inl h ↦ rw h refl
          | inr h ↦ rw h (simp (accepts) refl)
        ])))

  rearm-ac : (st : LinkState) (c : Client) → (rearm st w conf c).ac ≡ c.ac
  unfolding rearm
  rearm-ac down c = refl
  rearm-ac connecting c = ground arith
  rearm-ac up c = ground arith

  rearm-sent : (st : LinkState) (c : Client) → (rearm st w conf c).sent ≡ c.sent
  unfolding rearm
  rearm-sent down c = refl
  rearm-sent connecting c = ground arith
  rearm-sent up c = ground arith

  rearm-state : (st : LinkState) (c : Client) → (rearm st w conf c).state ≡ c.state
  unfolding rearm
  rearm-state down c = refl
  rearm-state connecting c = ground arith
  rearm-state up c = ground arith

  start_pull-sent :
      (c : Client) → (after : List Command) × ((start_pull strlen w conf c).sent ≡ c.sent ++ after)
  unfolding start_pull pull_step
  start_pull-sent c =
      let cmd = scan 0 (match_pattern strlen conf.prefix) in
      elim (Bool-cases c.pull_inflight) [
        | inl h ↦ ([], simp (h) (sym (append-nil c.sent)))
        | inr h ↦ elim (Bool-cases (c.ac && is_up c.state && w.accepts cmd)) [
          | inl g ↦ (cmd ∷ [], simp (h) (rw g refl))
          | inr g ↦ ([], simp (h) (rw g (sym (append-nil c.sent))))
        ]
      ]

  -- The first tick leaves a context and the ring.
  pub tick_down :
      (now : ℕ) (c : Client) (push : Option Ring)
      → c.state ≡ down
      → let s' = timer_handler strlen render w conf now (c, push) in
        (s'.0.ac ≡ true) × (s'.1 ≡ push)
  unfolding timer_handler work
  tick_down now c push e =
      let c0 : Client = record c { timer = none } in
      let c1 = connect w conf c0 in
      let out : (LinkState → Client × Option Ring) = λ st.
        (let o = work st strlen render w conf now (c0, push) in
          (rearm o.0.state w conf o.0, o.1)) in
      (ap (λ st. (out st).0.ac) e ∙ rearm-ac c1.state c1 ∙ connect-ac c0 e, ap (λ st. (out st).1) e)

  -- The second tick, over a connection that is up and needs no answer to AUTH.
  tick_up :
      (now : ℕ) (c : Client) (r : Ring)
      → IsRing r
      → c.ac ≡ true
      → let s' =
          timer_handler strlen render w conf now
            (record c { state = up; auth_pending = false }, some r) in
        (r' : Ring) × (after : List Command) × (s'.0.state ≡ up)
        × (s'.1 ≡ some r')
        × IsRing r'
        × (queue r' ≡ [])
        × (s'.0.sent ≡ c.sent ++ (commands_of strlen render conf.prefix now (queue r) ++ after))
  unfolding timer_handler work flush_and_pull
  tick_up now c r g a =
      let c' : Client = record c { state = up; auth_pending = false; timer = none } in
      let (r', g', q, e) = flush_push_queue strlen render w conf now c' r g a refl accepts in
      let p = flush_push strlen render w conf now c' (some r) in
      let pulled = start_pull strlen w conf (p.0) in
      let (after, t) = start_pull-sent (p.0) in
      (
        r',
        after,
        rearm-state pulled.state pulled
            ∙ start_pull-state strlen w conf (p.0)
            ∙ ap (λ x. x.0.state) e,
        ap (λ x. x.1) e,
        g',
        q,
        rearm-sent pulled.state pulled
            ∙ t
            ∙ ap (λ x. x.0.sent ++ after) e
            ∙ append_assoc c.sent _ _,
      )

-- A client that is down, in a process that is not exiting and with a server that takes the
-- connection, its AUTH and every command, is up two ticks of its timer later; by then it has emptied
-- the push ring and has issued one SET for each entry that is valid at that time, in the ring's
-- order.
pub recovers :
    (strlen : ℕ) (render : ℕ → Bytes) (conf : RedisConf) (w : World) (c : Client) (r : Ring)
    (t now : ℕ)
    → w.exiting ≡ false
    → w.opened ≡ true
    → w.attached ≡ true
    → ((cmd : Command) → w.accepts cmd ≡ true)
    → c.state ≡ down
    → IsRing r
    → let answers = tick t ∷ connected true ∷ auth_answer true ∷ tick now ∷ [] in
      let s' = handle_all strlen render conf w answers (c, some r) in
      (r' : Ring) × (before after : List Command) × (s'.0.state ≡ up)
      × (s'.1 ≡ some r')
      × IsRing r'
      × (queue r' ≡ [])
      × (s'.0.sent ≡ before ++ (commands_of strlen render conf.prefix now (queue r) ++ after))
unfolding handle on_connect auth_reply
recovers strlen render conf w c r t now x o a acc e g =
    let s1 = timer_handler strlen render w conf t (c, some r) in
    let (live, same) = tick_down strlen render conf w x o a acc t c (some r) e in
    let c2 : Client = record (s1.0) { state = up; backoff = backoff_min } in
    let (r', after, live_now, ring, ok, empty, sent) =
      tick_up strlen render conf w x o a acc now c2 r g live in
    let last : (Option Ring → Shared) = λ p.
      timer_handler strlen render w conf now (record c2 { state = up; auth_pending = false }, p) in
    (
      r',
      s1.0.sent,
      after,
      ap (λ p. (last p).0.state) same ∙ live_now,
      ap (λ p. (last p).1) same ∙ ring,
      ok,
      empty,
      ap (λ p. (last p).0.sent) same ∙ sent,
    )
