-- ===== src/Handler/Record.antt =====
-- ngx_sentinel_log_handler: what it records.
use nginx_http_sentinel_modu.Prelude.{
  ℕ, ◌≤◌, ◌<◌, ◌≡◌, refl, Bool, true, false, Option, some, arith, leb, ◌==◌, length, Bytes,
}
use nginx_http_sentinel_modu.Nginx.{Request}
use nginx_http_sentinel_modu.Shm.Zone.{Zone}
use nginx_http_sentinel_modu.Shm.Window.Refine.{spec_record}
use nginx_http_sentinel_modu.Shm.Errrate.{record_locked, errrate_record}
use nginx_http_sentinel_modu.Shm.Errrate.Track.{IsSound, track}
use nginx_http_sentinel_modu.Shm.Errrate.Put.{Updates}
use nginx_http_sentinel_modu.Shm.Errrate.Refine.{record_refines}
use nginx_http_sentinel_modu.Signal.Config.{NginxLib, LocConf}
use nginx_http_sentinel_modu.Signal.Gather.{Zones}
use nginx_http_sentinel_modu.Handler.{Env, final_status, record_into, log_handler}

-- The zone after one event of the identity, as the specification says.
pub record Recorded (z : Zone) (now : ℕ) (k : Bytes) (o : Option Zone) : Type 0 where
  pub zone : Zone
  pub is : o ≡ some zone
  pub updates : Updates z now k (spec_record z (track z.queue k) now).1 zone
  pub sound : IsSound now zone

record_into-Recorded :
    (z : Zone) (k : Bytes) (now : ℕ)
    → IsSound now z
    → 0 < z.threshold
    → Recorded z now k (record_into true (some z) k now true)
unfolding errrate_record
record_into-Recorded z k now s h =
    let r = record_refines z k now s h in
    record { zone = (record_locked z k now true).1; is = refl; updates = r.1; sound = r.2 }

skipped :
    (b : Bool) (z : Zone) (k : Bytes) (now : ℕ) (fits : Bool)
    → b ≡ false
    → record_into b (some z) k now fits ≡ some z
skipped b z k now fits e = rw e refl

logged :
    (lib : NginxLib) (r : Request) (lcf : LocConf) (env : Env) (zs : Zones)
    → lcf.enabled ≡ true
    → 0 < length r.addr_text
    → log_handler lib r lcf env zs ≡ record zs {
      vel_zone = record_into true zs.vel_zone (lib.sha256 r.addr_text) env.now env.node_fits;
      zone =
          record_into
            (leb 400 (final_status r))
            zs.zone
            (lib.sha256 r.addr_text)
            env.now
            env.node_fits;
    }
unfolding log_handler
logged lib r lcf env zs on addr =
    let some_addr : (length r.addr_text == 0) ≡ false = ground arith in simp (on, some_addr) refl

-- With the module on, both zones bound, well formed and with room, and a client address: every
-- completed request is recorded as one event of the client in the velocity zone, and exactly the
-- requests that end in a status of 400 or more in the error-rate zone; each recording acts on the
-- map of tracks as the specification says.
pub log_handler_records :
    (lib : NginxLib) (r : Request) (lcf : LocConf) (env : Env) (zs : Zones) (v z : Zone)
    → lcf.enabled ≡ true
    → 0 < length r.addr_text
    → env.node_fits ≡ true
    → zs.vel_zone ≡ some v
    → zs.zone ≡ some z
    → IsSound env.now v
    → IsSound env.now z
    → 0 < v.threshold
    → 0 < z.threshold
    → let zs' = log_handler lib r lcf env zs in
      Recorded v env.now (lib.sha256 r.addr_text) zs'.vel_zone
      × (400 ≤ final_status r → Recorded z env.now (lib.sha256 r.addr_text) zs'.zone)
      × (final_status r < 400 → zs'.zone ≡ some z)
log_handler_records lib r lcf env zs v z on addr fits ev ez sv sz tv tz =
    let k = lib.sha256 r.addr_text in
    rw (logged lib r lcf env zs on addr, ev, ez, fits)
      (
        record_into-Recorded v k env.now sv tv,
        (λ h.
            let err : leb 400 (final_status r) ≡ true = ground arith in
            rw err (record_into-Recorded z k env.now sz tz)),
        (λ h. skipped (leb 400 (final_status r)) z k env.now true (ground arith)),
      )
