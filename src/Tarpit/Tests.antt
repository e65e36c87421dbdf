-- ===== src/Tarpit/Tests.antt =====
-- The theorems on the tarpit at concrete counters and ticks.
use nginx_http_sentinel_modu.Prelude.{
  ℕ, ◌+◌, ◌≡◌, ◌≤◌, ◌<◌, refl, true, false, List, [], ◌∷◌, some, arith,
}
use nginx_http_sentinel_modu.Nginx.{ok, again}
use nginx_http_sentinel_modu.Tarpit.{
  Tarpit, TarpitConf, StartEnv, TickEnv, tarpit_sum, tarpit_start,
}
use nginx_http_sentinel_modu.Tarpit.Race.{
  Race, Reach, here, next, test, load, swap, idle, tested, loaded, overshoot,
}
use nginx_http_sentinel_modu.Tarpit.{inc_slot}
use nginx_http_sentinel_modu.Tarpit.Slots.{held, tarpit_start_slots}
use nginx_http_sentinel_modu.Tarpit.Run.{drip, Ends, drip-Ends}

abbrev conf : TarpitConf
conf = record { max_conns = 4; delay = 1000; bytes = 100; max_lifetime = 60000; maze = true }

abbrev env : StartEnv
env = record { ctx_alloc = true; cleanup_alloc = false; header_rc = ok; seed = 7 }

abbrev drip_ctx : Tarpit
drip_ctx = record {
  deadline = 60000;
  bytes_sent = 70;
  bytes_total = 100;
  delay_ms = 1000;
  slot = 1;
  rng = 7;
  counted = true;
  maze = true;
}

abbrev tick : TickEnv
tick = record { now = 59500; now_after = 59500; gone = false; sent = again; write_event = true }

tarpit_start_slots_example :
    let (s, o) = tarpit_start conf env (some (1 ∷ 2 ∷ [])) 1 0 in
    (conns' : List ℕ) × (o ≡ some conns')
    × (tarpit_sum conns' ≡ tarpit_sum (1 ∷ 2 ∷ []) + held s)
    × (tarpit_sum conns' ≤ 4)
unfolding tarpit_sum
tarpit_start_slots_example =
    tarpit_start_slots conf env (1 ∷ 2 ∷ []) 1 0 (omega arith) (omega arith)

-- Two ticks that the filter accepts.
abbrev accepted : List TickEnv
accepted = record tick { sent = ok } ∷ record tick { sent = ok } ∷ []

drip-Ends_example : Ends accepted drip_ctx (drip accepted drip_ctx)
drip-Ends_example = drip-Ends accepted drip_ctx (omega arith) (refl, (refl, tt))

-- Two workers with a cap of one connection, both outside the loop.
abbrev quiet : Race
quiet = record { conns = 0 ∷ 0 ∷ []; phases = idle ∷ idle ∷ [] }

-- Both test the sum before either takes its slot: two connections.
abbrev raced : Race
raced = record { conns = 1 ∷ 1 ∷ []; phases = idle ∷ idle ∷ [] }

race : Reach 1 quiet raced
unfolding tarpit_sum inc_slot
race =
    let s1 : Race = record { conns = 0 ∷ 0 ∷ []; phases = tested ∷ idle ∷ [] } in
    let s2 : Race = record { conns = 0 ∷ 0 ∷ []; phases = tested ∷ tested ∷ [] } in
    let s3 : Race = record { conns = 0 ∷ 0 ∷ []; phases = loaded 0 ∷ tested ∷ [] } in
    let s4 : Race = record { conns = 0 ∷ 0 ∷ []; phases = loaded 0 ∷ loaded 0 ∷ [] } in
    let s5 : Race = record { conns = 1 ∷ 0 ∷ []; phases = idle ∷ loaded 0 ∷ [] } in
    let r1 : Reach 1 quiet s1 = next here (test quiet 0 (omega arith) refl (omega arith)) in
    let r2 : Reach 1 quiet s2 = next r1 (test s1 1 (omega arith) refl (omega arith)) in
    let r3 : Reach 1 quiet s3 = next r2 (load s2 0 (omega arith) refl) in
    let r4 : Reach 1 quiet s4 = next r3 (load s3 1 (omega arith) refl) in
    let r5 : Reach 1 quiet s5 = next r4 (swap s4 0 0 (omega arith) (omega arith) refl refl) in
    next r5 (swap s5 1 0 (omega arith) (omega arith) refl refl)

overshoot_example : tarpit_sum raced.conns < 1 + 2
unfolding tarpit_sum
overshoot_example = overshoot 1 quiet raced (omega arith) refl (omega arith) race
