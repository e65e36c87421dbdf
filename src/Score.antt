-- ===== src/Score.antt =====
-- sentinel_score.c: the weighted sum over the signals and the verdict bands; the structs of
-- sentinel.h that it reads.
pub mod Total
pub mod Verdicts
mod Tests
use nginx_http_sentinel_modu.Prelude.{
  ℕ, ◌+◌, ◌*◌, ◌/◌, Bool, ◌&&◌, not, Option, none, some, ltb, ◌==◌, if◌then◌else◌, Bytes,
}
use nginx_http_sentinel_modu.Prelude.Int.{ℤ, pos, pos_part, ◌+ℤ◌, ◌-ℤ◌, ltb_ℤ, leb_ℤ}

-- `ngx_sentinel_inputs_t`. A flag is a Bool.
pub record Inputs : Type 0 where
  pub ja4h : Bytes
  pub errrate_count : ℕ
  pub errrate_blocked : Bool
  pub scanner_path : Bool
  pub bot_ua : Bool
  pub known_good_ua : Bool
  pub fcrdns_verified : Bool
  pub fcrdns_spoofed : Bool
  pub header_anomaly : Bool
  pub honeypot : Bool
  pub velocity_exceeded : Bool
  pub datacenter_asn : Bool
  pub ua_incoherent : Bool
  pub ja3_flagged : Bool
  pub ja4_flagged : Bool
  pub ja4t_flagged : Bool
  pub c2ip_flagged : Bool
  pub allowlisted : Bool
  pub crowdsec_hit : Bool
  pub crowdsec_action : ℕ

-- `ngx_sentinel_weights_t`
pub record Weights : Type 0 where
  pub errrate : ℤ
  pub blocked : ℤ
  pub scanner : ℤ
  pub bot : ℤ
  pub header : ℤ
  pub honeypot : ℤ
  pub velocity : ℤ
  pub asn : ℤ
  pub coherence : ℤ
  pub ja3 : ℤ
  pub ja4 : ℤ
  pub ja4t : ℤ
  pub c2ip : ℤ
  pub crowdsec : ℤ

-- `ngx_sentinel_threshold_t`
pub record Threshold : Type 0 where
  pub challenge : ℤ
  pub tarpit : ℤ
  pub block : ℤ

-- `ngx_sentinel_verdict_e`
pub data Verdict : Type 0 where
  allow challenge tarpit block : Verdict

abbrev pub score_max : ℕ
score_max = 100000

-- The action tiers of a crowdsec decision.
abbrev pub cs_none : ℕ
cs_none = 0

abbrev pub cs_ban : ℕ
cs_ban = 1

abbrev pub cs_captcha : ℕ
cs_captcha = 2

abbrev pub cs_throttle : ℕ
cs_throttle = 3

-- The saturating addition.
unfoldable pub score_add : ℤ → ℤ → ℤ
unfolding ◌+ℤ◌ ◌-ℤ◌
score_add acc term =
    if leb_ℤ term (pos 0)
    then acc
    else if ltb_ℤ (pos score_max -ℤ acc) term
    then pos score_max
    else acc +ℤ term

-- `if (flag) score_add (&score, weight)`
unfoldable pub add_if : Bool → ℤ → ℤ → ℤ
add_if flag weight acc = if flag then score_add acc weight else acc

-- The error count times its weight. Under the guard the weight is its positive part.
unfoldable pub add_errrate : ℤ → ℕ → ℤ → ℤ
add_errrate w count acc =
    if ltb_ℤ (pos 0) w && ltb 0 count
    then (if ltb (score_max / pos_part w) count
        then score_add acc (pos score_max)
        else score_add acc (pos (pos_part w * count)))
    else acc

-- The share of the crowdsec weight that an action earns, for a positive weight.
unfoldable pub crowdsec_term : ℕ → ℕ → ℕ
crowdsec_term action w =
    if action == cs_captcha then w * 40 / 100 else if action == cs_throttle then w * 65 / 100 else w

unfoldable pub add_crowdsec : Bool → ℕ → ℤ → ℤ → ℤ
add_crowdsec hit action w acc =
    if hit && ltb_ℤ (pos 0) w then score_add acc (pos (crowdsec_term action (pos_part w))) else acc

-- The two allowlist short-circuits: neither applies under a crowdsec hit, and a disproved crawler
-- claim disables the first.
unfoldable pub is_exempt : Inputs → Bool
is_exempt i =
    if i.known_good_ua && not i.crowdsec_hit && not i.fcrdns_spoofed
    then Bool.true
    else i.allowlisted && not i.crowdsec_hit

unfoldable pub clamp : ℤ → ℤ
clamp s =
    let s' = if ltb_ℤ s (pos 0) then pos 0 else s in
    if ltb_ℤ (pos score_max) s' then pos score_max else s'

-- The sum itself, in the order of the source.
unfoldable pub sum_signals : Inputs → Weights → ℤ
sum_signals i w = add_crowdsec i.crowdsec_hit i.crowdsec_action w.crowdsec (
    add_if i.ua_incoherent w.coherence (
      add_if i.ja4t_flagged w.ja4t (
        add_if i.ja4_flagged w.ja4 (
          add_if i.ja3_flagged w.ja3 (
            add_if i.c2ip_flagged w.c2ip (
              add_if i.datacenter_asn w.asn (
                add_if i.velocity_exceeded w.velocity (
                  add_if i.honeypot w.honeypot (
                    add_if i.header_anomaly w.header (
                      add_if i.bot_ua w.bot (
                        add_if i.scanner_path w.scanner (
                          add_if i.errrate_blocked w.blocked
                            (add_errrate w.errrate i.errrate_count (pos 0))))))))))))))

-- `sentinel_score_compute`; `none` is a NULL argument.
unfoldable pub compute : Option Inputs → Option Weights → ℤ
unfolding is_exempt clamp
compute none w = pos 0
compute (some i) none = pos 0
compute (some i) (some w) = if is_exempt i then pos 0 else clamp (sum_signals i w)

-- `sentinel_score_to_verdict`
unfoldable pub to_verdict : ℤ → Threshold → Verdict
to_verdict score t =
    if leb_ℤ t.block score
    then block
    else if leb_ℤ t.tarpit score
    then tarpit
    else if leb_ℤ t.challenge score
    then challenge
    else allow
