-- ===== src/Score/Total.antt =====
-- What the score is: the weighted sum, cut off at the maximum.
use nginx_http_sentinel_modu.Prelude.{
  ℕ, ◌+◌, ◌*◌, ◌/◌, ◌<◌, min, Bool, true, false, ◌≡◌, refl, arith, some, if◌then◌else◌,
}
use Prim.Native.Nat.mul
use native.Mathlib.Nat.{div-lt_iff_lt-mul, mul_comm, zero-add}
use nginx_http_sentinel_modu.Prelude.Int.{ℤ, pos, negsuc, pos_part}
use nginx_http_sentinel_modu.Score.{
  Inputs, Weights, score_max, score_add, add_if, add_errrate, crowdsec_term, add_crowdsec,
  is_exempt, clamp, sum_signals, compute,
}

abbrev sat : ℕ → ℕ
sat n = min score_max n

zero_sat : pos 0 ≡ pos (sat 0)
zero_sat = refl

-- What a flag earns under a weight.
abbrev pub gain : Bool → ℤ → ℕ
gain flag w = if flag then pos_part w else 0

score_add-sat : (a : ℕ) (t : ℤ) → score_add (pos (sat a)) t ≡ pos (sat (a + pos_part t))
unfolding score_add
score_add-sat a t = ground arith

add_if-sat :
    (flag : Bool) (w : ℤ) (a : ℕ) → add_if flag w (pos (sat a)) ≡ pos (sat (a + gain flag w))
unfolding add_if
add_if-sat true w a = score_add-sat a w
add_if-sat false w a = ground arith

-- Past the quotient the product is over the maximum.
product_over : (k n : ℕ) → 0 < k → score_max / k < n → score_max < k * n
product_over k n h q = omega (arith, (div-lt_iff_lt-mul h).0 q, mul_comm k n)

add_errrate-sat : (w : ℤ) (n a : ℕ) → add_errrate w n (pos (sat a)) ≡ pos (sat (a + pos_part w * n))
unfolding add_errrate
add_errrate-sat (negsuc k) n a = ground (arith, mul.zero n)
add_errrate-sat (pos k) n a =
    ground (arith, product_over k n, score_add-sat a (pos score_max), score_add-sat a (pos (k * n)))

add_crowdsec-sat :
    (hit : Bool) (act : ℕ) (w : ℤ) (a : ℕ)
    → add_crowdsec hit act w (pos (sat a))
      ≡ pos (sat (a + (if hit then crowdsec_term act (pos_part w) else 0)))
unfolding add_crowdsec crowdsec_term
add_crowdsec-sat false act w a = ground arith
add_crowdsec-sat true act (negsuc k) a = ground arith
add_crowdsec-sat true act (pos k) a = ground (arith, score_add-sat a (pos (crowdsec_term act k)))

-- The plain weighted sum of every signal but the crowdsec one.
abbrev pub local_total : Inputs → Weights → ℕ
local_total i w =
    pos_part w.errrate * i.errrate_count
    + gain i.errrate_blocked w.blocked
    + gain i.scanner_path w.scanner
    + gain i.bot_ua w.bot
    + gain i.header_anomaly w.header
    + gain i.honeypot w.honeypot
    + gain i.velocity_exceeded w.velocity
    + gain i.datacenter_asn w.asn
    + gain i.c2ip_flagged w.c2ip
    + gain i.ja3_flagged w.ja3
    + gain i.ja4_flagged w.ja4
    + gain i.ja4t_flagged w.ja4t
    + gain i.ua_incoherent w.coherence

abbrev pub crowdsec_total : Inputs → Weights → ℕ
crowdsec_total i w =
    if i.crowdsec_hit then crowdsec_term i.crowdsec_action (pos_part w.crowdsec) else 0

sum_signals-sat :
    (i : Inputs) (w : Weights) → sum_signals i w ≡ pos (sat (local_total i w + crowdsec_total i w))
unfolding sum_signals
sum_signals-sat i w = rw (zero_sat, add_errrate-sat, zero-add) (simp (add_if-sat, add_crowdsec-sat))

clamp-sat : (n : ℕ) → clamp (pos (sat n)) ≡ pos (sat n)
unfolding clamp
clamp-sat n = ground arith

-- A request that no allowlist exempts scores the weighted sum of its signals, each positive
-- weight once for its flag, the error weight once for each error, and the crowdsec weight by its
-- action, cut off at the maximum: saturating on the way loses nothing.
pub compute_total :
    (i : Inputs) (w : Weights)
    → is_exempt i ≡ false
    → compute (some i) (some w) ≡ pos (min score_max (local_total i w + crowdsec_total i w))
unfolding compute
compute_total i w h = rw (h, sum_signals-sat) (clamp-sat (local_total i w + crowdsec_total i w))
