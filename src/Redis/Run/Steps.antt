-- ===== src/Redis/Run/Steps.antt =====
-- Every event keeps the connection in order.
use nginx_http_sentinel_modu.Prelude.{
  ℕ, ◌*◌, ◌≡◌, inl, inr, refl, ap, ◌∙◌, Bool, true, false, not, List, Option, none, some, arith,
  if◌then◌else◌, Bytes, Bool-cases,
}
use nginx_http_sentinel_modu.Ring.{Ring}
use nginx_http_sentinel_modu.Redis.{
  LinkState, down, connecting, up, is_down, Client, World, RedisConf, released, disconnected,
  auth_dropped, scan_dropped, drop_conn, run_notice, on_connect, auth_reply, Command,
}
use nginx_http_sentinel_modu.Redis.Push.{flush_push}
use nginx_http_sentinel_modu.Redis.Run.{
  first_client, Shared, start_pull, flush_and_pull, work, rearm, timer_handler, Event, tick,
  connected, lost, auth_answer, scan_answer, late, handle, Fires, event, ban, Reach, here, next,
}
use nginx_http_sentinel_modu.Redis.Run.Linked.{
  IsLinked, schedule-IsLinked, teardown-IsLinked, on_disconnect-IsLinked, sent-IsLinked,
}
use nginx_http_sentinel_modu.Redis.Publish.{flush-sent}
use nginx_http_sentinel_modu.Redis.Run.Opens.{
  timed-IsLinked, rearm_live, connect-IsLinked, down-IsIdle,
}
use nginx_http_sentinel_modu.Redis.Run.Pulls.{
  idle_pull-IsLinked, scan_reply-IsLinked, start_pull-timer, start_pull-state, start_pull-IsLinked,
}

flush_pending :
    (strlen : ℕ) (render : ℕ → Bytes) (w : World) (conf : RedisConf) (now : ℕ) (c : Client)
    (push : Option Ring)
    → c.auth_pending ≡ true
    → flush_and_pull strlen render w conf now (c, push) ≡ (c, push)
unfolding flush_and_pull
flush_pending strlen render w conf now c push h = simp (h) refl

abbrev pick : Bool → Shared → Shared → Client
pick b s t = (if b then s else t).0

-- Behind a flush, which has left the client as it was but for the commands, the pull.
flush_then_pull :
    (strlen : ℕ) (render : ℕ → Bytes) (w : World) (conf : RedisConf) (now : ℕ) (c : Client)
    (push : Option Ring)
    → c.auth_pending ≡ false
    → (cmds : List Command) × ((flush_and_pull strlen render w conf now (c, push)).0
        ≡ start_pull strlen w conf (record c { sent = cmds }))
unfolding flush_and_pull
flush_then_pull strlen render w conf now c push h =
    let (cmds, e) = flush-sent strlen render w conf now c push in
    let out = flush_push strlen render w conf now c push in
    (
      cmds,
      ap (λ b. pick b (c, push) (start_pull strlen w conf (out.0), out.1)) h
          ∙ ap (start_pull strlen w conf) e,
    )

-- The timer handler, by the state that it is called in.
work-IsLinked :
    (strlen : ℕ) (render : ℕ → Bytes) (w : World) (conf : RedisConf) (now : ℕ) (c : Client)
    (push : Option Ring) (st : LinkState)
    → w.exiting ≡ false
    → c.state ≡ st
    → IsLinked conf c
    → let out = work st strlen render w conf now (record c { timer = none }, push) in
      IsLinked conf (rearm out.0.state w conf out.0)
unfolding work
work-IsLinked strlen render w conf now c push down x e i =
    let idle = down-IsIdle conf c (i.context ∙ ap (λ st. not (is_down st)) e) i in
    connect-IsLinked w conf (record c { timer = none }) x
      (record {
        low = idle.low;
        high = idle.high;
        state = idle.state;
        ac = idle.ac;
        pulls = idle.pulls;
        auths = idle.auths;
      })
work-IsLinked strlen render w conf now c push connecting x e i =
    rw (rearm_live w conf c.state (record c { timer = none }) x (ap is_down e))
      (timed-IsLinked conf c (conf.interval * 1000) (inr refl) i)
work-IsLinked strlen render w conf now c push up x e i =
    let d = conf.interval * 1000 in
    let c' : Client = record c { timer = none } in
    elim (Bool-cases c.auth_pending) [
      | inl h ↦
          rw
            (
              flush_pending strlen render w conf now c' push h,
              rearm_live w conf c.state c' x (ap is_down e),
            )
            (timed-IsLinked conf c d (inr refl) i)
      | inr h ↦
          let (cmds, g) = flush_then_pull strlen render w conf now c' push h in
          let p = start_pull strlen w conf (record c' { sent = cmds }) in
          let same : p.state ≡ up =
            start_pull-state strlen w conf (record c' { sent = cmds }) ∙ e in
          let timed : Client = record c { timer = some d; sent = cmds } in
          rw
            (
              g,
              rearm_live w conf p.state p x (ap is_down same),
              start_pull-timer strlen w conf (record c' { sent = cmds }) (some d),
            )
            (start_pull-IsLinked strlen w conf timed (
              sent-IsLinked conf (record c { timer = some d }) cmds
                (timed-IsLinked conf c d (inr refl) i)))
    ]

handle-IsLinked :
    (strlen : ℕ) (render : ℕ → Bytes) (conf : RedisConf) (w : World) (e : Event) (s : Shared)
    → w.exiting ≡ false
    → Fires e s.0
    → IsLinked conf s.0
    → IsLinked conf (handle strlen render conf w e s).0
unfolding handle on_connect auth_reply timer_handler run_notice
handle-IsLinked strlen render conf w (tick now) s x g i =
    work-IsLinked strlen render w conf now (s.0) (s.1) (s.0.state) x refl i
handle-IsLinked strlen render conf w (connected true) s x g i = record {
  delay = i.delay;
  armed = i.armed;
  soon = i.soon;
  low = omega arith;
  high = omega arith;
  context = g;
  attached = i.attached;
  pulls = λ p. refl;
  auths = i.auths;
}
handle-IsLinked strlen render conf w (connected false) s x g i =
    rw x (on_disconnect-IsLinked conf (s.0) i.low i.high)
handle-IsLinked strlen render conf w lost s x g i =
    rw x (on_disconnect-IsLinked conf (s.0) i.low i.high)
handle-IsLinked strlen render conf w (auth_answer true) s x g i = record {
  delay = i.delay;
  armed = i.armed;
  soon = i.soon;
  low = i.low;
  high = i.high;
  context = i.context;
  attached = i.attached;
  pulls = i.pulls;
  auths = λ p. ground arith;
}
handle-IsLinked strlen render conf w (auth_answer false) s x g i =
    teardown-IsLinked conf w (record s.0 { auth_pending = false }) x i.low i.high
handle-IsLinked strlen render conf w (scan_answer r) s x g i =
    scan_reply-IsLinked strlen w conf r s.0 i
handle-IsLinked strlen render conf w (late released) s x g i = record {
  delay = i.delay;
  armed = i.armed;
  soon = i.soon;
  low = i.low;
  high = i.high;
  context = i.context;
  attached = λ p. absurd cc;
  pulls = i.pulls;
  auths = i.auths;
}
handle-IsLinked strlen render conf w (late disconnected) s x g i =
    rw x (on_disconnect-IsLinked conf (s.0) i.low i.high)
handle-IsLinked strlen render conf w (late auth_dropped) s x g i =
    let c : Client = drop_conn (record s.0 { auth_pending = false }) in
    rw x (
      schedule-IsLinked conf c
        (record { low = i.low; high = i.high; state = refl; ac = g; pulls = refl; auths = refl }))
handle-IsLinked strlen render conf w (late scan_dropped) s x g i = idle_pull-IsLinked conf (s.0) i

-- Along every run of a process that is not exiting, whatever frees call back at once and whatever
-- hiredis puts off, the timer of the client is armed, either for at most the longest back-off or for
-- the configured interval; the back-off stays in its bounds; there is a context exactly when the
-- state is not down, and it has its nginx connection; a pull runs only over a connection that is up,
-- and an answer to AUTH is awaited only over a context.
pub Reach-IsLinked :
    (strlen : ℕ) (render : ℕ → Bytes) (conf : RedisConf) (push : Option Ring) (s : Shared)
    → Reach strlen render conf (first_client, push) s
    → IsLinked conf s.0
Reach-IsLinked strlen render conf push s here = record {
  delay = 1000;
  armed = refl;
  soon = inl (omega arith);
  low = omega arith;
  high = omega arith;
  context = refl;
  attached = λ p. p;
  pulls = λ p. p;
  auths = λ p. p;
}
Reach-IsLinked strlen render conf push s (next r (event w e t x g)) =
    handle-IsLinked strlen render conf w e t x g (Reach-IsLinked strlen render conf push t r)
Reach-IsLinked strlen render conf push s (next r (ban t ip action expiry)) =
    Reach-IsLinked strlen render conf push t r
