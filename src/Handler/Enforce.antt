-- ===== src/Handler/Enforce.antt =====
-- ngx_sentinel_preaccess_handler: the limits of enforcement.
use nginx_http_sentinel_modu.Prelude.{
  ◌≡◌, refl, true, false, some, arith, ltb, ◌==◌, Bool-cases, inl, inr,
}
use nginx_http_sentinel_modu.Nginx.{Request}
use nginx_http_sentinel_modu.Score.{Verdict, allow, challenge, tarpit, block}
use nginx_http_sentinel_modu.Tarpit.{TarpitConf}
use nginx_http_sentinel_modu.Pow.{PowLib, PowConf}
use nginx_http_sentinel_modu.Signal.Config.{NginxLib, LocConf}
use nginx_http_sentinel_modu.Signal.Gather.{Ctx}
use nginx_http_sentinel_modu.Metrics.{metrics_record}
use nginx_http_sentinel_modu.Handler.{
  Shared, Env, enforce_tarpit, enforce_block, exports, enforce, dispatch,
}

tarpit_rings :
    (lcf : LocConf) (tconf : TarpitConf) (env : Env) (s : Shared)
    → let s' = (enforce_tarpit lcf tconf env s).1 in (s'.push ≡ s.push) × (s'.sink ≡ s.sink)
unfolding enforce_tarpit
tarpit_rings lcf tconf env s = elim (Bool-cases (ltb 0 lcf.throttle_rate)) [
  | inl t ↦ rw t (refl, refl)
  | inr t ↦ elim (Bool-cases lcf.shield) [
    | inl u ↦ rw (t, u) (refl, refl)
    | inr u ↦ elim (Bool-cases (tconf.max_conns == 0)) [
      | inl v ↦ rw (t, u, v) (refl, refl)
      | inr v ↦ rw (t, u, v) (refl, refl)
    ]
  ]
]

-- A decision that came from the ban table is never put on a ring, whatever the verdict is: a
-- ban is not passed on to where it came from.
pub no_ban_loop :
    (lib : NginxLib) (plib : PowLib) (r : Request) (lcf : LocConf) (pconf : PowConf)
    (tconf : TarpitConf) (env : Env) (ctx : Ctx) (s : Shared)
    → ctx.inputs.crowdsec_hit ≡ true
    → let s' = (dispatch lib plib r lcf pconf tconf env (some ctx) s).1 in
      (s'.push ≡ s.push) × (s'.sink ≡ s.sink)
unfolding dispatch enforce enforce_block exports
no_ban_loop lib plib r lcf pconf tconf env ctx s h =
    let counted = record s { metrics = metrics_record s.metrics (some ctx) false } in
    elim (Bool-cases lcf.shadow) [
      | inl t ↦ simp t (refl, refl)
      | inr t ↦ simp (t, h) (by_verdict counted ctx.verdict)
    ]
  where
    by_verdict :
        (s : Shared) (v : Verdict)
        → let s' = (enforce lib plib r lcf pconf tconf env v true s).1 in
          (s'.push ≡ s.push) × (s'.sink ≡ s.sink)
    by_verdict s allow = (refl, refl)
    by_verdict s challenge = (refl, refl)
    by_verdict s tarpit = tarpit_rings lcf tconf env s
    by_verdict s block = (ground arith, ground arith)
