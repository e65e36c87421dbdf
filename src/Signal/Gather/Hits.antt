-- ===== src/Signal/Gather/Hits.antt =====
-- What the shared tables contribute to the context of a request.
use nginx_http_sentinel_modu.Prelude.{
  ℕ, ◌<◌, ◌≡◌, refl, ap, ◌∙◌, Bool, true, false, some, arith, ◌==◌, min, if◌then◌else◌, length,
  Bytes,
}
use nginx_http_sentinel_modu.Prelude.Int.{pos, pos_part, ◌≤ℤ◌, leb_ℤ}
use nginx_http_sentinel_modu.Nginx.{Rc, busy, Request}
use nginx_http_sentinel_modu.Score.{
  Inputs, Weights, Threshold, block, compute, to_verdict, cs_none, cs_ban, score_max,
}
use nginx_http_sentinel_modu.Score.Verdicts.{ban_floor}
use nginx_http_sentinel_modu.Shm.Zone.{Zone}
use nginx_http_sentinel_modu.Shm.Zone.Find.{Distinct}
use nginx_http_sentinel_modu.Shm.Crowdsec.{crowdsec_lookup, crowdsec_lookup_locked}
use nginx_http_sentinel_modu.Shm.Crowdsec.Table.{answer, crowdsec_lookup_refines}
use nginx_http_sentinel_modu.Signal.Ja4h.{ja4h_compute}
use nginx_http_sentinel_modu.Signal.Config.{NginxLib, LocConf}
use nginx_http_sentinel_modu.Signal.Zones.{
  is_busy, crowdsec_signal, errrate_signal, velocity_signal, fcrdns_signal,
}
use nginx_http_sentinel_modu.Signal.Gather.{Zones, compute_ctx, gather_lists, gather_request}

-- The flags that a reply of the ban table leads to.
abbrev hit_flags : Rc × ℕ → Bool × ℕ
hit_flags (rc, action) = (is_busy rc, if is_busy rc then action else cs_none)

flags_of : Inputs → Bool × ℕ
flags_of i = (i.crowdsec_hit, i.crowdsec_action)

-- The crowdsec flags of a request with a client address are what the ban table has in force
-- against that address, and the lookup leaves what is in force as it was.
crowdsec_signal_lem :
    (lib : NginxLib) (r : Request) (z : Zone) (now : ℕ) (i : Inputs)
    → Distinct z.queue
    → 0 < length r.addr_text
    → let (i', z') = crowdsec_signal lib r (some z) now i in
      ((i'.crowdsec_hit, i'.crowdsec_action) ≡ hit_flags (answer z now (lib.sha256 r.addr_text)))
      × ((w : Zone) × (z' ≡ some w)
          × Distinct w.queue
          × ((k : Bytes) → answer w now k ≡ answer z now k))
unfolding crowdsec_signal crowdsec_lookup
crowdsec_signal_lem lib r z now i d h =
    let l = crowdsec_lookup_refines z (lib.sha256 r.addr_text) now d in
    let w = (crowdsec_lookup_locked z (lib.sha256 r.addr_text) now).2 in
    let some_addr : (length r.addr_text == 0) ≡ false = ground arith in
    rw some_addr (ap hit_flags l.0, (w, refl, l.2, l.1))

hit_blocks :
    (i : Inputs) (w : Weights) (t : Threshold)
    → i.crowdsec_hit ≡ true
    → i.crowdsec_action ≡ cs_ban
    → t.block ≤ℤ pos (min score_max (pos_part w.crowdsec))
    → to_verdict (compute (some i) (some w)) t ≡ block
unfolding to_verdict
hit_blocks i w t h a b =
    let floor = ban_floor i w h (ground arith) (ground arith) in
    let above : leb_ℤ t.block (compute (some i) (some w)) ≡ true = ground arith in rw above refl

-- A client whose address the ban table bans is blocked, whatever else the request shows: its
-- address on the allowlist and a crawler's User-Agent included. The crowdsec weight is at least
-- the block threshold, and the threshold is at most the maximal score.
pub banned_blocks :
    (lib : NginxLib) (r : Request) (lcf : LocConf) (zs : Zones) (z : Zone) (now : ℕ) (i : Inputs)
    → zs.cs_zone ≡ some z
    → Distinct z.queue
    → 0 < length r.addr_text
    → answer z now (lib.sha256 r.addr_text) ≡ (busy, cs_ban)
    → lcf.threshold.block ≤ℤ pos (min score_max (pos_part lcf.weights.crowdsec))
    → (compute_ctx lib r lcf zs now i).0.verdict ≡ block
unfolding compute_ctx
banned_blocks lib r lcf zs z now i e d h a t = rw e (
    let f = fcrdns_signal lib (some r) (some lcf) zs.fcrdns_zone now (
      gather_lists lib r lcf
        (velocity_signal lib (some r) zs.vel_zone now (
          gather_request lib r lcf
            (errrate_signal lib r zs.zone now
              (record i { ja4h = ja4h_compute lib.print r })).0)).0) in
    let flags = (crowdsec_signal_lem lib r z now f.0 d h).0 ∙ ap hit_flags a in
    hit_blocks (crowdsec_signal lib r (some z) now f.0).0 lcf.weights lcf.threshold
      (ap (λ p. p.0) flags) (ap (λ p. p.1) flags) t)
