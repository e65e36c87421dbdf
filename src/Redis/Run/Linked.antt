-- ===== src/Redis/Run/Linked.antt =====
-- The state of the connection along every run: the timer, the back-off and the flags.
use nginx_http_sentinel_modu.Prelude.{
  ℕ, ◌*◌, ◌≤◌, ◌≡◌, inl, inr, ◌⊎◌, refl, sym, ◌∙◌, true, false, not, List, [], ◌∷◌, some, arith,
  Bool-cases,
}
use nginx_http_sentinel_modu.Redis.{
  down, is_down, is_up, Client, World, RedisConf, Notice, released, disconnected, auth_dropped,
  scan_dropped, backoff_min, backoff_max, at_least_min, next_backoff, schedule_reconnect,
  reset_link, drop_conn, on_disconnect, run_notice, run_notices, teardown, Command,
}

-- A connection in order: the timer is armed, either for at most the longest back-off or for the
-- configured interval; the back-off is in its bounds; there is a context exactly when the state is
-- not down; a context has its nginx connection (while a free that hiredis has put off is pending,
-- there can be a connection without a context); and a pull runs only over a connection that is up.
pub record IsLinked (conf : RedisConf) (c : Client) : Type 0 where
  pub delay : ℕ
  pub armed : c.timer ≡ some delay
  pub soon : (delay ≤ backoff_max) ⊎ (delay ≡ conf.interval * 1000)
  pub low : backoff_min ≤ c.backoff
  pub high : c.backoff ≤ backoff_max
  pub context : c.ac ≡ not (is_down c.state)
  pub attached : c.ac ≡ true → c.conn ≡ true
  pub pulls : c.pull_inflight ≡ true → is_up c.state ≡ true
  pub auths : c.auth_pending ≡ true → c.ac ≡ true

-- A client that has given its connection up.
pub record IsIdle (c : Client) : Type 0 where
  pub low : backoff_min ≤ c.backoff
  pub high : c.backoff ≤ backoff_max
  pub state : c.state ≡ down
  pub ac : c.ac ≡ false
  pub pulls : c.pull_inflight ≡ false
  pub auths : c.auth_pending ≡ false

backoff_bounds :
    (b : ℕ)
    → b ≤ backoff_max
    → (backoff_min ≤ at_least_min b)
      × (at_least_min b ≤ backoff_max)
      × (backoff_min ≤ next_backoff (at_least_min b))
      × (next_backoff (at_least_min b) ≤ backoff_max)
backoff_bounds b h = ground arith

pub schedule-IsLinked :
    (conf : RedisConf) (c : Client) → IsIdle c → IsLinked conf (schedule_reconnect false c)
unfolding schedule_reconnect
schedule-IsLinked conf c i =
    let (a, b, d, e) = backoff_bounds c.backoff i.high in
    record {
      delay = at_least_min c.backoff;
      armed = refl;
      soon = inl b;
      low = d;
      high = e;
      context = simp (i.state) i.ac;
      attached = λ p. absurd (Bool-clash (sym i.ac ∙ p));
      pulls = λ p. absurd (Bool-clash (sym i.pulls ∙ p));
      auths = λ p. absurd (Bool-clash (sym i.auths ∙ p));
    }
  where
    Bool-clash : false ≡ true → ⊥
    Bool-clash h = cc

schedule-IsIdle : (c : Client) → IsIdle c → IsIdle (schedule_reconnect false c)
unfolding schedule_reconnect
schedule-IsIdle c i =
    let (a, b, d, e) = backoff_bounds c.backoff i.high in
    record { low = d; high = e; state = i.state; ac = i.ac; pulls = i.pulls; auths = i.auths }

drop_conn-IsIdle :
    (c : Client)
    → backoff_min ≤ c.backoff
    → c.backoff ≤ backoff_max
    → IsIdle (drop_conn (record c { ac = false }))
drop_conn-IsIdle c l h = record {
  low = l;
  high = h;
  state = refl;
  ac = refl;
  pulls = refl;
  auths = refl;
}

run_notice-IsIdle : (n : Notice) (c : Client) → IsIdle c → IsIdle (run_notice false n c)
unfolding run_notice on_disconnect
run_notice-IsIdle released c i = record {
  low = i.low;
  high = i.high;
  state = i.state;
  ac = i.ac;
  pulls = i.pulls;
  auths = i.auths;
}
run_notice-IsIdle disconnected c i =
    schedule-IsIdle (drop_conn (record c { ac = false })) (drop_conn-IsIdle c i.low i.high)
run_notice-IsIdle auth_dropped c i =
    schedule-IsIdle (drop_conn (record c { auth_pending = false }))
      (record { low = i.low; high = i.high; state = refl; ac = i.ac; pulls = refl; auths = refl })
run_notice-IsIdle scan_dropped c i = record {
  low = i.low;
  high = i.high;
  state = i.state;
  ac = i.ac;
  pulls = refl;
  auths = i.auths;
}

run_notices-IsIdle : (ns : List Notice) (c : Client) → IsIdle c → IsIdle (run_notices false ns c)
unfolding run_notices
run_notices-IsIdle [] c i = i
run_notices-IsIdle (n ∷ ns) c i =
    run_notices-IsIdle ns (run_notice false n c) (run_notice-IsIdle n c i)

-- What a teardown leaves, and that a reconnect is due behind it.
pub teardown-IsLinked :
    (conf : RedisConf) (w : World) (c : Client)
    → w.exiting ≡ false
    → backoff_min ≤ c.backoff
    → c.backoff ≤ backoff_max
    → IsLinked conf (schedule_reconnect w.exiting (teardown w c))
unfolding teardown
teardown-IsLinked conf w c x l h = elim (Bool-cases c.ac) [
  | inl a ↦
      let c' : Client = record (reset_link c) { ac = false } in
      let i : IsIdle c' = record {
        low = l;
        high = h;
        state = refl;
        ac = refl;
        pulls = refl;
        auths = refl;
      } in
      simp (a) (
        simp (x)
          (schedule-IsLinked conf (run_notices false w.freed c') (run_notices-IsIdle w.freed c' i)))
  | inr a ↦ simp (a) (
      simp (x)
        (schedule-IsLinked conf (drop_conn (record c { ac = false })) (drop_conn-IsIdle c l h)))
]

pub on_disconnect-IsLinked :
    (conf : RedisConf) (c : Client)
    → backoff_min ≤ c.backoff
    → c.backoff ≤ backoff_max
    → IsLinked conf (on_disconnect false c)
unfolding on_disconnect
on_disconnect-IsLinked conf c l h =
    schedule-IsLinked conf (drop_conn (record c { ac = false })) (drop_conn-IsIdle c l h)

-- Commands that have been issued do not matter.
pub sent-IsLinked :
    (conf : RedisConf) (c : Client) (cmds : List Command)
    → IsLinked conf c
    → IsLinked conf (record c { sent = cmds })
sent-IsLinked conf c cmds i = record {
  delay = i.delay;
  armed = i.armed;
  soon = i.soon;
  low = i.low;
  high = i.high;
  context = i.context;
  attached = i.attached;
  pulls = i.pulls;
  auths = i.auths;
}
