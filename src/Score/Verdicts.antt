-- ===== src/Score/Verdicts.antt =====
-- What the verdict says of the score, and the security clauses of the allowlists.
use native.Mathlib.Nat.{mul-le-mul_left}
use nginx_http_sentinel_modu.Prelude.{
  ℕ, ◌≤◌, min, Bool, true, false, ◌≡◌, ◌≢◌, ◌↔◌, refl, arith, Option, none, some, if◌then◌else◌,
  ◌==◌, Bool-cases, inl, inr,
}
use nginx_http_sentinel_modu.Prelude.Int.{ℤ, pos, pos_part, ◌≤ℤ◌, ltb_ℤ}
use nginx_http_sentinel_modu.Score.{
  Inputs, Weights, Threshold, Verdict, allow, challenge, tarpit, block, score_max, cs_captcha,
  cs_throttle, crowdsec_term, is_exempt, compute, to_verdict, sum_signals,
}
use nginx_http_sentinel_modu.Score.Total.{local_total, gain, compute_total}

exempt_score : (i : Inputs) (w : Weights) → is_exempt i ≡ true → compute (some i) (some w) ≡ pos 0
unfolding compute
exempt_score i w h = rw h

-- The score lies between 0 and the maximum, NULL arguments included.
compute_bounds :
    (i : Option Inputs) (w : Option Weights)
    → (pos 0 ≤ℤ compute i w) × (compute i w ≤ℤ pos score_max)
unfolding compute
compute_bounds none w = omega arith
compute_bounds (some i) none = omega arith
compute_bounds (some i) (some w) = elim (Bool-cases (is_exempt i)) [
  | inl h ↦ rw (exempt_score i w h) (omega arith)
  | inr h ↦ rw (compute_total i w h) (omega arith)
]

-- A crowdsec hit is never exempted.
hit-is_exempt : (i : Inputs) → i.crowdsec_hit ≡ true → is_exempt i ≡ false
unfolding is_exempt
hit-is_exempt i h = ground arith

ban_term : (a k : ℕ) → a ≢ cs_captcha → a ≢ cs_throttle → crowdsec_term a k ≡ k
unfolding crowdsec_term
ban_term a k n1 n2 = ground arith

-- Under a crowdsec hit whose action is no weaker tier the score is at least the whole crowdsec
-- weight (or the maximum), whatever the User-Agent claims and the address allowlist says.
pub ban_floor :
    (i : Inputs) (w : Weights)
    → i.crowdsec_hit ≡ true
    → i.crowdsec_action ≢ cs_captcha
    → i.crowdsec_action ≢ cs_throttle
    → pos (min score_max (pos_part w.crowdsec)) ≤ℤ compute (some i) (some w)
ban_floor i w h n1 n2 =
    rw
      (
        compute_total i w (hit-is_exempt i h),
        h,
        ban_term i.crowdsec_action (pos_part w.crowdsec) n1 n2,
      )
      (omega arith)

spoofed-is_exempt :
    (i : Inputs)
    → i.fcrdns_spoofed ≡ true
    → is_exempt i ≡ is_exempt (record i { known_good_ua = false })
unfolding is_exempt
spoofed-is_exempt i h = ground arith

-- A crawler claim that the DNS check has disproved changes nothing: the score is that of the same
-- request without the claim.
spoofed_claim :
    (i : Inputs) (w : Weights)
    → i.fcrdns_spoofed ≡ true
    → compute (some i) (some w) ≡ compute (some (record i { known_good_ua = false })) (some w)
unfolding compute sum_signals
spoofed_claim i w h = rw (spoofed-is_exempt i h)

-- With thresholds in order the verdicts are the bands between them.
to_verdict_bands :
    (s : ℤ) (t : Threshold)
    → t.challenge ≤ℤ t.tarpit
    → t.tarpit ≤ℤ t.block
    → ((to_verdict s t ≡ block) ↔ (t.block ≤ℤ s))
      × ((to_verdict s t ≡ tarpit) ↔ ((t.tarpit ≤ℤ s) × (ltb_ℤ s t.block ≡ true)))
      × ((to_verdict s t ≡ challenge) ↔ ((t.challenge ≤ℤ s) × (ltb_ℤ s t.tarpit ≡ true)))
      × ((to_verdict s t ≡ allow) ↔ (ltb_ℤ s t.challenge ≡ true))
unfolding to_verdict
to_verdict_bands s t h k = ground arith

-- `NGX_SENTINEL_DEFAULT_THRESH_*`
abbrev default_threshold : Threshold
default_threshold = record { challenge = pos 30; tarpit = pos 60; block = pos 80 }

-- The band that the documentation gives each action.
abbrev tier_band : ℕ → Verdict
tier_band a = if a == cs_captcha then challenge else if a == cs_throttle then tarpit else block

-- With the default crowdsec weight 100 and the default thresholds, a hit with no other signal
-- lands in its action's band: captcha challenges, throttle tarpits, and anything else blocks.
tier_verdict :
    (i : Inputs) (w : Weights)
    → i.crowdsec_hit ≡ true
    → w.crowdsec ≡ pos 100
    → local_total i w ≡ 0
    → to_verdict (compute (some i) (some w)) default_threshold ≡ tier_band i.crowdsec_action
unfolding to_verdict crowdsec_term
tier_verdict i w h e z = rw (compute_total i w (hit-is_exempt i h), z, h, e) (ground arith)

-- Which signals of `i` also fire in `j`, the crowdsec ones being the same.
pub record IsWeaker (i j : Inputs) : Type 0 where
  pub count : i.errrate_count ≤ j.errrate_count
  pub blocked : i.errrate_blocked ≡ true → j.errrate_blocked ≡ true
  pub scanner : i.scanner_path ≡ true → j.scanner_path ≡ true
  pub bot : i.bot_ua ≡ true → j.bot_ua ≡ true
  pub header : i.header_anomaly ≡ true → j.header_anomaly ≡ true
  pub honeypot : i.honeypot ≡ true → j.honeypot ≡ true
  pub velocity : i.velocity_exceeded ≡ true → j.velocity_exceeded ≡ true
  pub asn : i.datacenter_asn ≡ true → j.datacenter_asn ≡ true
  pub coherence : i.ua_incoherent ≡ true → j.ua_incoherent ≡ true
  pub ja3 : i.ja3_flagged ≡ true → j.ja3_flagged ≡ true
  pub ja4 : i.ja4_flagged ≡ true → j.ja4_flagged ≡ true
  pub ja4t : i.ja4t_flagged ≡ true → j.ja4t_flagged ≡ true
  pub c2ip : i.c2ip_flagged ≡ true → j.c2ip_flagged ≡ true
  pub hit : i.crowdsec_hit ≡ j.crowdsec_hit
  pub action : i.crowdsec_action ≡ j.crowdsec_action

gain_mono : (a b : Bool) (w : ℤ) → (a ≡ true → b ≡ true) → gain a w ≤ gain b w
gain_mono false b w h = omega arith
gain_mono true b w h = rw (h refl) (omega arith)

local_total_mono : (i j : Inputs) (w : Weights) → IsWeaker i j → local_total i w ≤ local_total j w
local_total_mono i j w h = omega (
  arith,
  mul-le-mul_left (pos_part w.errrate) h.count,
  gain_mono _ _ w.blocked h.blocked,
  gain_mono _ _ w.scanner h.scanner,
  gain_mono _ _ w.bot h.bot,
  gain_mono _ _ w.header h.header,
  gain_mono _ _ w.honeypot h.honeypot,
  gain_mono _ _ w.velocity h.velocity,
  gain_mono _ _ w.asn h.asn,
  gain_mono _ _ w.coherence h.coherence,
  gain_mono _ _ w.ja3 h.ja3,
  gain_mono _ _ w.ja4 h.ja4,
  gain_mono _ _ w.ja4t h.ja4t,
  gain_mono _ _ w.c2ip h.c2ip,
)

-- Among requests that are not exempt, more signals never lower the score.
compute_mono :
    (i j : Inputs) (w : Weights)
    → IsWeaker i j
    → is_exempt i ≡ false
    → is_exempt j ≡ false
    → compute (some i) (some w) ≤ℤ compute (some j) (some w)
compute_mono i j w h ei ej =
    rw (compute_total i w ei, compute_total j w ej, h.hit, h.action)
      (omega (arith, local_total_mono i j w h))
