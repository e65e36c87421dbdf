-- ===== src/Handler/Counts.antt =====
-- ngx_sentinel_preaccess_handler: the call of sentinel_metrics_record.
use nginx_http_sentinel_modu.Prelude.{
  ℕ, ◌%◌, ◌^◌, ◌≡◌, refl, ap, ◌∙◌, Bool, true, false, List, [], ◌∷◌, Option, none, some, ltb, ◌==◌,
  if◌then◌else◌, length, ◌+◌, ◌++◌, Bool-cases, inl, inr,
}
use nginx_http_sentinel_modu.Nginx.{Request}
use nginx_http_sentinel_modu.Score.{Verdict, allow, challenge, tarpit, block}
use nginx_http_sentinel_modu.Tarpit.{TarpitConf}
use nginx_http_sentinel_modu.Pow.{PowLib, PowConf}
use nginx_http_sentinel_modu.Signal.Config.{NginxLib, LocConf}
use nginx_http_sentinel_modu.Signal.Gather.{Ctx, get_ctx}
use nginx_http_sentinel_modu.Metrics.{requests, metrics_record, metric_get}
use nginx_http_sentinel_modu.Metrics.Counts.{IsCounters}
use nginx_http_sentinel_modu.Metrics.Balance.{
  verdict_sum, verdicts_balance, requests_count, record_all,
}
use nginx_http_sentinel_modu.Handler.{
  Shared, Outcome, Env, pass, enforce_tarpit, enforce_block, enforce, dispatch, preaccess_handler,
}

-- What a call of the handler is given.
pub record Call : Type 0 where
  pub request : Request
  pub conf : LocConf
  pub pow : PowConf
  pub tarpit : TarpitConf
  pub env : Env
  pub cached : Option Ctx

tarpit_counts :
    (lcf : LocConf) (tconf : TarpitConf) (env : Env) (s : Shared)
    → (enforce_tarpit lcf tconf env s).1.metrics ≡ s.metrics
unfolding enforce_tarpit
tarpit_counts lcf tconf env s = elim (Bool-cases (ltb 0 lcf.throttle_rate)) [
  | inl t ↦ rw t refl
  | inr t ↦ elim (Bool-cases lcf.shield) [
    | inl u ↦ rw (t, u) refl
    | inr u ↦ elim (Bool-cases (tconf.max_conns == 0)) [
      | inl v ↦ rw (t, u, v) refl
      | inr v ↦ rw (t, u, v) refl
    ]
  ]
]

record_all-++ :
    (cs ds : List (Ctx × Bool)) (m : Option (List ℕ))
    → record_all ds (record_all cs m) ≡ record_all (cs ++ ds) m
record_all-++ [] ds m = refl
record_all-++ ((c, b) ∷ cs) ds m = record_all-++ cs ds (metrics_record m (some c) b)

module _ (lib : NginxLib) (plib : PowLib) where
  enforce_counts :
      (r : Request) (lcf : LocConf) (pconf : PowConf) (tconf : TarpitConf) (env : Env) (v : Verdict)
      (hit : Bool) (s : Shared)
      → (enforce lib plib r lcf pconf tconf env v hit s).1.metrics ≡ s.metrics
  unfolding enforce enforce_block
  enforce_counts r lcf pconf tconf env allow hit s = refl
  enforce_counts r lcf pconf tconf env challenge hit s = refl
  enforce_counts r lcf pconf tconf env tarpit hit s = tarpit_counts lcf tconf env s
  enforce_counts r lcf pconf tconf env block hit s = refl

  -- The requests that a context counts.
  abbrev counted : Option Ctx → Bool → List (Ctx × Bool)
  counted none shadow = []
  counted (some c) shadow = (c, shadow) ∷ []

  dispatch_counts :
      (r : Request) (lcf : LocConf) (pconf : PowConf) (tconf : TarpitConf) (env : Env)
      (ctx : Option Ctx) (s : Shared)
      → (dispatch lib plib r lcf pconf tconf env ctx s).1.metrics
        ≡ record_all (counted ctx lcf.shadow) s.metrics
  unfolding dispatch
  dispatch_counts r lcf pconf tconf env none s = refl
  dispatch_counts r lcf pconf tconf env (some c) s =
      let s1 = record s { metrics = metrics_record s.metrics (some c) false } in
      let e = enforce_counts r lcf pconf tconf env c.verdict c.inputs.crowdsec_hit s1 in
      elim (Bool-cases lcf.shadow) [ inl t ↦ simp t refl | inr t ↦ simp t e ]

  abbrev pub handle : Call → Shared → Shared
  handle c s = (preaccess_handler lib plib c.request c.conf c.pow c.tarpit c.env c.cached s).1

  -- The context that a call of the handler counts.
  abbrev context : Call → Shared → Option Ctx
  context c s =
      if c.conf.enabled
      then (get_ctx lib c.cached c.env.ctx_alloc c.request c.conf s.zones c.env.now).0
      else none

  if_counts :
      (b shadow : Bool) (x y : Outcome × Shared) (c : Option Ctx) (m : Option (List ℕ))
      → x.1.metrics ≡ record_all (counted c shadow) m
      → y.1.metrics ≡ m
      → (if b then x else y).1.metrics ≡ record_all (counted (if b then c else none) shadow) m
  if_counts true shadow x y c m e f = e
  if_counts false shadow x y c m e f = f

  handle_counts :
      (c : Call) (s : Shared)
      → (handle c s).metrics ≡ record_all (counted (context c s) c.conf.shadow) s.metrics
  unfolding preaccess_handler
  handle_counts c s =
      let g = get_ctx lib c.cached c.env.ctx_alloc c.request c.conf s.zones c.env.now in
      let on =
        dispatch_counts c.request c.conf c.pow c.tarpit c.env g.0 (record s { zones = g.1 }) in
      if_counts c.conf.enabled c.conf.shadow _ (pass, s) g.0 s.metrics on refl

  abbrev pub handle_all : List Call → Shared → Shared
  handle_all [] s = s
  handle_all (c ∷ cs) s = handle_all cs (handle c s)

  -- The requests that a sequence of calls counts.
  abbrev pub counted_all : List Call → Shared → List (Ctx × Bool)
  counted_all [] s = []
  counted_all (c ∷ cs) s = counted (context c s) c.conf.shadow ++ counted_all cs (handle c s)

  handle_all_counts :
      (cs : List Call) (s : Shared)
      → (handle_all cs s).metrics ≡ record_all (counted_all cs s) s.metrics
  handle_all_counts [] s = refl
  handle_all_counts (c ∷ cs) s =
      handle_all_counts cs (handle c s)
      ∙ ap (record_all (counted_all cs (handle c s))) (handle_counts c s)
      ∙ record_all-++ (counted (context c s) c.conf.shadow) (counted_all cs (handle c s)) s.metrics

  -- Whatever calls the handler gets, with the counters in place: afterwards the request counter has
  -- grown, modulo 2^64, by the number of the calls at an enabled location that came by a context, in
  -- shadow mode or not, and when the verdict counters added up to it, modulo 2^64, they still do.
  pub handler_counts :
      (cs : List Call) (s : Shared) (m : List ℕ)
      → s.metrics ≡ some m
      → IsCounters m
      → let s' = handle_all cs s in
        (metric_get s'.metrics requests
          ≡ (metric_get s.metrics requests + length (counted_all cs s)) % 2 ^ 64)
        × (verdict_sum s.metrics % 2 ^ 64 ≡ metric_get s.metrics requests % 2 ^ 64
            → verdict_sum s'.metrics % 2 ^ 64 ≡ metric_get s'.metrics requests % 2 ^ 64)
  handler_counts cs s m e w =
      simp (handle_all_counts cs s, e)
        (requests_count (counted_all cs s) m w, verdicts_balance (counted_all cs s) m w)
