-- ===== src/Signal/Zones.antt =====
-- The signals that read a shared-memory zone, which a lookup changes: sentinel_errrate.c,
-- sentinel_velocity.c, sentinel_crowdsec_signal of sentinel_feed.c and sentinel_fcrdns_signal of
-- sentinel_fcrdns.c. The log and the debug lines are left out.
use nginx_http_sentinel_modu.Prelude.{
  ℕ, Bool, true, false, not, List, [], ◌∷◌, Option, none, some, ◌&&◌, ◌==◌, leb, if◌then◌else◌, any,
  length, Bytes, codes,
}
use nginx_http_sentinel_modu.Nginx.{Rc, error, busy, SockAddr, inet, inet6, unix, Request}
use nginx_http_sentinel_modu.Score.{Inputs, cs_none}
use nginx_http_sentinel_modu.Shm.Zone.{Zone}
use nginx_http_sentinel_modu.Shm.Window.{Reply}
use nginx_http_sentinel_modu.Shm.Errrate.{errrate_lookup}
use nginx_http_sentinel_modu.Shm.Crowdsec.{
  crowdsec_lookup, fcrdns_get, fcrdns_verified, fcrdns_failed,
}
use nginx_http_sentinel_modu.Signal.Config.{NginxLib, LocConf}

abbrev scanner_prefixes : List Bytes
scanner_prefixes =
    codes "/.env"
    ∷ codes "/.git"
    ∷ codes "/wp-login"
    ∷ codes "/wp-admin"
    ∷ codes "/.aws"
    ∷ codes "/phpinfo"
    ∷ []

-- `sentinel_errrate_is_scanner_path`
unfoldable pub is_scanner_path : NginxLib → Bytes → Bool
is_scanner_path lib uri =
    any (λ pfx. leb (length pfx) (length uri) && lib.strncasecmp_eq uri pfx (length pfx))
      scanner_prefixes

abbrev pub is_busy : Rc → Bool
is_busy busy = true
is_busy _ = false

-- The flags of the errrate signal by the reply of the lookup.
abbrev with_reply : Inputs → Reply → Inputs
with_reply i r = elim r.rc [
  | error ↦ record i { errrate_count = 0; errrate_blocked = false }
  | _ ↦ record i { errrate_count = r.count; errrate_blocked = is_busy r.rc }
]

-- `sentinel_errrate_signal`
unfoldable pub errrate_signal : NginxLib → Request → Option Zone → ℕ → Inputs → Inputs × Option Zone
errrate_signal lib r none now i = (
  record i { errrate_count = 0; errrate_blocked = false; scanner_path = is_scanner_path lib r.uri },
  none,
)
errrate_signal lib r (some zone) now i =
    let i' = record i {
      errrate_count = 0;
      errrate_blocked = false;
      scanner_path = is_scanner_path lib r.uri;
    } in
    let (reply, zone') = errrate_lookup (some zone) (lib.sha256 r.addr_text) now in
    if length r.addr_text == 0 then (i', some zone) else (with_reply i' reply, zone')

-- `sentinel_velocity_signal`
unfoldable pub velocity_signal :
    NginxLib → Option Request → Option Zone → ℕ → Inputs → Inputs × Option Zone
velocity_signal lib none zone now i = (record i { velocity_exceeded = false }, zone)
velocity_signal lib (some r) none now i = (record i { velocity_exceeded = false }, none)
velocity_signal lib (some r) (some zone) now i =
    let (reply, zone') = errrate_lookup (some zone) (lib.sha256 r.addr_text) now in
    if length r.addr_text == 0
    then (record i { velocity_exceeded = false }, some zone)
    else (record i { velocity_exceeded = is_busy reply.rc }, zone')

-- `sentinel_crowdsec_signal`
unfoldable pub crowdsec_signal :
    NginxLib → Request → Option Zone → ℕ → Inputs → Inputs × Option Zone
crowdsec_signal lib r none now i =
    (record i { crowdsec_hit = false; crowdsec_action = cs_none }, none)
crowdsec_signal lib r (some zone) now i =
    let (rc, action, zone') = crowdsec_lookup (some zone) (lib.sha256 r.addr_text) now in
    if length r.addr_text == 0
    then (record i { crowdsec_hit = false; crowdsec_action = cs_none }, some zone)
    else (
      record i {
        crowdsec_hit = is_busy rc;
        crowdsec_action = if is_busy rc then action else cs_none;
      },
      zone',
    )

-- The address bytes that identify a client to the DNS verdict cache.
abbrev addr_bytes : Option SockAddr → Option Bytes
addr_bytes none = none
addr_bytes (some (inet addr)) = some addr
addr_bytes (some (inet6 addr)) = some addr
addr_bytes (some unix) = none

-- The cached verdict's flags, the zone, and whether an asynchronous resolve is started.
unfoldable pub fcrdns_verdict : Bool → Inputs → ℕ × Option Zone → Inputs × Option Zone × Bool
fcrdns_verdict resolver i (verdict, zone) =
    if verdict == fcrdns_verified
    then (record i { fcrdns_verified = true; fcrdns_spoofed = false }, zone, false)
    else if verdict == fcrdns_failed
    then (record i { fcrdns_verified = false; fcrdns_spoofed = true }, zone, false)
    else (record i { fcrdns_verified = false; fcrdns_spoofed = false }, zone, resolver)

-- `sentinel_fcrdns_signal`. It reads the flag that the User-Agent signal has written.
unfoldable pub fcrdns_signal :
    NginxLib
    → Option Request
    → Option LocConf
    → Option Zone
    → ℕ
    → Inputs
    → Inputs × Option Zone × Bool
fcrdns_signal lib none lcf zone now i =
    (record i { fcrdns_verified = false; fcrdns_spoofed = false }, zone, false)
fcrdns_signal lib (some r) none zone now i =
    (record i { fcrdns_verified = false; fcrdns_spoofed = false }, zone, false)
fcrdns_signal lib (some r) (some lcf) none now i =
    (record i { fcrdns_verified = false; fcrdns_spoofed = false }, none, false)
fcrdns_signal lib (some r) (some lcf) (some zone) now i =
    if not i.known_good_ua
    then (record i { fcrdns_verified = false; fcrdns_spoofed = false }, some zone, false)
    else if length r.addr_text == 0
    then (record i { fcrdns_verified = false; fcrdns_spoofed = false }, some zone, false)
    else elim (addr_bytes r.sockaddr) [
      | none ↦ (record i { fcrdns_verified = false; fcrdns_spoofed = false }, some zone, false)
      | some addr ↦ fcrdns_verdict lcf.resolver i (fcrdns_get (some zone) (lib.sha256 addr) now)
    ]
