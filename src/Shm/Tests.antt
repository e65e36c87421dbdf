-- ===== src/Shm/Tests.antt =====
-- The theorems on the zones at concrete zones that meet their hypotheses.
use nginx_http_sentinel_modu.Prelude.{
  ◌≡◌, refl, true, false, [], ◌∷◌, some, arith, codes, Bytes, bytes_eq,
}
use nginx_http_sentinel_modu.Nginx.{ok, busy, error}
use nginx_http_sentinel_modu.Score.{cs_ban}
use nginx_http_sentinel_modu.Shm.Zone.{Node, Zone, expire, find_node, expire_oldest}
use nginx_http_sentinel_modu.Shm.Zone.Find.{Distinct}
use nginx_http_sentinel_modu.Shm.Window.{prune}
use nginx_http_sentinel_modu.Shm.Window.Prune.{IsValid, times, prune-times}
use nginx_http_sentinel_modu.Shm.Window.Refine.{spec_lookup, spec_record}
use nginx_http_sentinel_modu.Shm.Errrate.{
  fail, lookup_locked, record_locked, softban_locked, softban_set, errrate_lookup,
}
use nginx_http_sentinel_modu.Shm.Errrate.Track.{track, current, IsSound}
use nginx_http_sentinel_modu.Shm.Errrate.Put.{Updates}
use nginx_http_sentinel_modu.Shm.Errrate.Refine.{record_refines, lookup_refines}
use nginx_http_sentinel_modu.Shm.Errrate.Ban.{softban_lasts, full_zone}
use nginx_http_sentinel_modu.Shm.Crowdsec.{Decision}
use nginx_http_sentinel_modu.Shm.Crowdsec.Sweep.{sweep_all, sweep_all-marked}

abbrev alice : Bytes
alice = codes "alice"

abbrev bob : Bytes
bob = codes "bob"

-- Two events in a ring of three.
abbrev noisy : Node
noisy = record {
  key = alice;
  blocked_until = 0;
  last_seen = 105;
  event_head = 0;
  event_count = 2;
  cs_generation = 0;
  cs_action = 0;
  redis_pulled = 0;
  events = 100 ∷ 105 ∷ 0 ∷ [];
}

abbrev calm : Node
calm = record noisy { key = bob; last_seen = 90; event_count = 1; events = 90 ∷ 0 ∷ 0 ∷ [] }

abbrev zone : Zone
zone = record {
  interval = 60;
  block = 300;
  threshold = 3;
  cs_generation = 0;
  queue = noisy ∷ calm ∷ [];
}

noisy-IsValid : IsValid 3 noisy
noisy-IsValid = record { head = refl; room = omega arith; size = refl }

calm-IsValid : IsValid 3 calm
calm-IsValid = record { head = refl; room = omega arith; size = refl }

zone_Distinct : Distinct zone.queue
unfolding bytes_eq
zone_Distinct = ((refl, tt), (tt, tt))

zone_IsSound : IsSound 110 zone
zone_IsSound = record {
  valid = (noisy-IsValid, (calm-IsValid, tt));
  distinct = zone_Distinct;
  past = ((omega arith, (omega arith, (omega arith, tt))), ((omega arith, (omega arith, tt)), tt));
}

prune-times_example : (times (prune zone noisy 162) ≡ 105 ∷ []) × IsValid 3 (prune zone noisy 162)
prune-times_example = prune-times zone noisy 162 noisy-IsValid

record_refines_example :
    let (r, z') = record_locked zone alice 110 true in
    let (r0, t) = spec_record zone (track zone.queue alice) 110 in
    (r ≡ r0) × Updates zone 110 alice t z' × IsSound 110 z'
record_refines_example = record_refines zone alice 110 zone_IsSound (omega arith)

lookup_refines_example :
    let (r, z') = lookup_locked zone bob 110 in
    (r ≡ (spec_lookup zone (track zone.queue bob) 110).0)
    × ((j : Bytes) → current zone 110 (track z'.queue j) ≡ current zone 110 (track zone.queue j))
    × IsSound 110 z'
lookup_refines_example = lookup_refines zone bob 110 zone_IsSound

softban_lasts_example :
    let (rc, z') = softban_set (some zone) bob 110 600 true in
    (rc ≡ ok)
    × ((errrate_lookup z' bob 500).0 ≡ record { rc = busy; count = 3; blocked_until = 710 })
softban_lasts_example =
    softban_lasts zone bob 110 600 500 zone_IsSound (omega arith) (omega arith) (omega arith)

full_zone_example :
    let k = codes "carol" in
    ((record_locked zone k 110 false).0 ≡ fail)
    × ((softban_locked zone k 110 600 false).0 ≡ error)
    × ((j : Bytes)
        → (current zone 110 (track (record_locked zone k 110 false).1.queue j)
            ≡ current zone 110 (track zone.queue j))
          × (current zone 110 (track (softban_locked zone k 110 600 false).1.queue j)
              ≡ current zone 110 (track zone.queue j)))
full_zone_example =
    full_zone zone (codes "carol") 110 600 zone_IsSound
      (unfold find_node bytes_eq expire expire_oldest in refl)

abbrev decision : Decision
decision = record { expiry = 900; action = cs_ban; generation = 4; redis_pulled = 0 }

sweep_all-marked_example : (sweep_all 3 zone 4 1).queue ≡ []
sweep_all-marked_example = sweep_all-marked 3 zone 4 1 (omega arith) (omega arith)
