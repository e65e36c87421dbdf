-- ===== src/Score/Tests.antt =====
-- Runs of the score at concrete inputs, and the theorems at inputs that meet their hypotheses.
use nginx_http_sentinel_modu.Prelude.{◌+◌, ◌≡◌, refl, min, true, false, [], some, arith}
use nginx_http_sentinel_modu.Prelude.Int.{pos, pos_part, ◌≤ℤ◌}
use nginx_http_sentinel_modu.Score.{Inputs, Weights, compute, is_exempt, score_max, cs_ban}
use nginx_http_sentinel_modu.Score.Total.{local_total, crowdsec_total, compute_total}
use nginx_http_sentinel_modu.Score.Verdicts.{ban_floor, IsWeaker}

-- A client on the address allowlist that is banned and hides behind a crawler's name.
abbrev banned : Inputs
banned = record {
  ja4h = [];
  errrate_count = 0;
  errrate_blocked = false;
  scanner_path = false;
  bot_ua = false;
  known_good_ua = true;
  fcrdns_verified = false;
  fcrdns_spoofed = true;
  header_anomaly = false;
  honeypot = false;
  velocity_exceeded = false;
  datacenter_asn = false;
  ua_incoherent = false;
  ja3_flagged = false;
  ja4_flagged = false;
  ja4t_flagged = false;
  c2ip_flagged = false;
  allowlisted = true;
  crowdsec_hit = true;
  crowdsec_action = cs_ban;
}

-- A scanner with three errors.
abbrev scanner : Inputs
scanner = record banned {
  errrate_count = 3;
  scanner_path = true;
  known_good_ua = false;
  fcrdns_spoofed = false;
  allowlisted = false;
  crowdsec_hit = false;
  crowdsec_action = 0;
}

abbrev weights : Weights
weights = record {
  errrate = pos 2;
  blocked = pos 40;
  scanner = pos 30;
  bot = pos 15;
  header = pos 10;
  honeypot = pos 50;
  velocity = pos 20;
  asn = pos 10;
  coherence = pos 10;
  ja3 = pos 40;
  ja4 = pos 40;
  ja4t = pos 40;
  c2ip = pos 60;
  crowdsec = pos 100;
}

compute_total_example :
    compute (some scanner) (some weights)
    ≡ pos (min score_max (local_total scanner weights + crowdsec_total scanner weights))
unfolding is_exempt
compute_total_example = compute_total scanner weights refl

ban_floor_example :
    pos (min score_max (pos_part weights.crowdsec)) ≤ℤ compute (some banned) (some weights)
ban_floor_example =
    ban_floor banned weights refl (λ e. absurd (omega arith)) (λ e. absurd (omega arith))

scanner_IsWeaker : IsWeaker scanner (record scanner { honeypot = true })
scanner_IsWeaker = record {
  count = omega arith;
  blocked = λ e. e;
  scanner = λ e. e;
  bot = λ e. e;
  header = λ e. e;
  honeypot = λ e. refl;
  velocity = λ e. e;
  asn = λ e. e;
  coherence = λ e. e;
  ja3 = λ e. e;
  ja4 = λ e. e;
  ja4t = λ e. e;
  c2ip = λ e. e;
  hit = refl;
  action = refl;
}
