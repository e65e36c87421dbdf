-- ===== src/Tarpit/Run.antt =====
-- The drip over a sequence of ticks.
use nginx_http_sentinel_modu.Prelude.{
  inl, inr, ◌⊎◌, ◌++◌, List, [], ◌∷◌, Option, none, some, All, Bytes, ◌-◌, ◌≤◌, ◌≡◌, refl, false,
  arith, length, length-append,
}
use nginx_http_sentinel_modu.Nginx.{Rc}
use nginx_http_sentinel_modu.Tarpit.{Tarpit, Tick, TickEnv, finish, rearm, write_handler}
use nginx_http_sentinel_modu.Tarpit.Drip.{TickOf, is_again, write_handler_bounds}

-- Ticks one after the other until the request is finished: all bytes handed over, and the code that
-- it is finished with.
abbrev pub drip : List TickEnv → Tarpit → Bytes × Option Rc
drip [] t = ([], none)
drip (e ∷ es) t =
    let (chunk, tick) = write_handler t e in
    elim tick [
      | finish rc ↦ (chunk, some rc)
      | rearm t' wait ↦ let (bytes, rc) = drip es t' in (chunk ++ bytes, rc)
    ]

-- The bounds of a sequence of ticks: the bytes handed over in total, and that the request is finished
-- or there were no more ticks than bytes left.
abbrev pub Ends : List TickEnv → Tarpit → Bytes × Option Rc → Type 0
Ends es t out =
    (length out.0 ≤ t.bytes_total - t.bytes_sent)
    × (((rc : Rc) × (out.1 ≡ some rc)) ⊎ (length es ≤ t.bytes_total - t.bytes_sent))

-- One tick more in front.
tick-Ends :
    (e : TickEnv) (es : List TickEnv) (t : Tarpit) (chunk : Bytes) (tick : Tick)
    → is_again e.sent ≡ false
    → ((t' : Tarpit) → t'.bytes_sent ≤ t'.bytes_total → Ends es t' (drip es t'))
    → TickOf t e chunk tick
    → Ends (e ∷ es) t (elim tick [
      | finish rc ↦ (chunk, some rc)
      | rearm t' wait ↦ let (bytes, rc) = drip es t' in (chunk ++ bytes, rc)
    ])
tick-Ends e es t chunk (finish rc) a rest f = (f, inl (rc, refl))
tick-Ends e es t chunk (rearm t' wait) a rest g =
    let counted = rw a at g.counted in
    let next = rest t' (omega (arith, g.total, counted, g.in_budget)) in
    (
      omega (arith, g.total, counted, g.in_budget, next.0, length-append chunk (drip es t').0),
      elim next.1 [
        | inl d ↦ inl d
        | inr d ↦ inr (omega (arith, g.total, counted, g.some_bytes, g.in_budget, d))
      ],
    )

-- When no tick is answered with NGX_AGAIN, the ticks of a tarpit within its budget hand over no more
-- bytes in total than were left, and with more ticks than bytes left the request is finished.
pub drip-Ends :
    (es : List TickEnv) (t : Tarpit)
    → t.bytes_sent ≤ t.bytes_total
    → All (λ e. is_again e.sent ≡ false) es
    → Ends es t (drip es t)
drip-Ends [] t h a = (omega arith, inr (omega arith))
drip-Ends (e ∷ es) t h a =
    tick-Ends e es t (write_handler t e).0 (write_handler t e).1 a.0 (λ t' k. drip-Ends es t' k a.1)
      (write_handler_bounds t e h).0
