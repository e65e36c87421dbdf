-- ===== src/Shm/Crowdsec.antt =====
-- sentinel_shm.c: the crowdsec ban table, and sentinel_fcrdns.c: the verdict cache that reuses it.
-- The nodes have no event ring. `none` for a zone is a NULL zone, context or pool; `fits` is
-- whether the slab allocation succeeds.
pub mod Table
pub mod Sweep
use mathlib.Core.List.{reverse}
use nginx_http_sentinel_modu.Prelude.{
  ℕ, zero, suc, ◌+◌, Bool, List, [], ◌∷◌, Option, none, some, ltb, leb, ◌==◌, if◌then◌else◌, Bytes,
}
use nginx_http_sentinel_modu.Nginx.{Rc, ok, error, busy}
use nginx_http_sentinel_modu.Score.{cs_none}
use nginx_http_sentinel_modu.Shm.Zone.{Node, Zone, expire_batch, expire, find_node, remove_node}

-- `sentinel_shm_crowdsec_create`
unfoldable pub crowdsec_create : Bytes → ℕ → Node
crowdsec_create k now = record {
  key = k;
  blocked_until = 0;
  last_seen = now;
  event_head = 0;
  event_count = 0;
  cs_generation = 0;
  cs_action = cs_none;
  redis_pulled = 0;
  events = [];
}

-- A decision as it is stored.
pub record Decision : Type 0 where
  pub expiry : ℕ
  pub action : ℕ
  pub generation : ℕ
  pub redis_pulled : ℕ

abbrev pub stamp : Node → Decision → ℕ → Node
stamp n d now = record n {
  blocked_until = d.expiry;
  cs_action = d.action;
  cs_generation = d.generation;
  redis_pulled = d.redis_pulled;
  last_seen = now;
}

unfoldable pub upsert_locked : Zone → Bytes → Decision → ℕ → Bool → Rc × Zone
upsert_locked z k d now fits = elim (find_node k z.queue) [
  | none ↦
      if fits
      then (ok, record z { queue = stamp (crowdsec_create k now) d now ∷ z.queue })
      else (error, z)
  | some n ↦ (ok, record z { queue = stamp n d now ∷ remove_node k z.queue })
]

-- `sentinel_shm_crowdsec_upsert`
unfoldable pub crowdsec_upsert : Option Zone → Bytes → Decision → ℕ → Bool → Rc × Option Zone
crowdsec_upsert none k d now fits = (error, none)
crowdsec_upsert (some z) k d now fits = let (rc, z') = upsert_locked z k d now fits in (rc, some z')

-- The walk of sentinel_shm_crowdsec_sweep from the old end: what stays of the part not yet
-- walked, and the number of deletions, of which `room` are still allowed.
unfoldable pub sweep_oldest : ℕ → ℕ → List Node → List Node × ℕ
sweep_oldest generation zero q = (q, 0)
sweep_oldest generation (suc room) [] = ([], 0)
sweep_oldest generation (suc room) (n ∷ q) =
    let keep = sweep_oldest generation (suc room) q in
    let drop = sweep_oldest generation room q in
    if n.cs_generation == generation then (n ∷ keep.0, keep.1) else (drop.0, suc drop.1)

-- `sentinel_shm_crowdsec_sweep`
unfoldable pub crowdsec_sweep : Zone → ℕ → ℕ → Zone × ℕ
crowdsec_sweep z generation batch =
    let (q, deleted) = sweep_oldest generation batch (reverse z.queue) in
    (record z { queue = reverse q }, deleted)

-- `sentinel_shm_crowdsec_lookup` between lock and unlock: the return code and the action.
unfoldable pub crowdsec_lookup_locked : Zone → Bytes → ℕ → Rc × ℕ × Zone
crowdsec_lookup_locked z k now =
    let q = expire z now expire_batch in
    elim (find_node k q) [
      | none ↦ (ok, cs_none, record z { queue = q })
      | some n ↦
          let z' = record z { queue = record n { last_seen = now } ∷ remove_node k q } in
          if leb n.blocked_until now then (ok, cs_none, z') else (busy, n.cs_action, z')
    ]

-- `sentinel_shm_crowdsec_lookup`
unfoldable pub crowdsec_lookup : Option Zone → Bytes → ℕ → Rc × ℕ × Option Zone
crowdsec_lookup none k now = (error, cs_none, none)
crowdsec_lookup (some z) k now =
    let (rc, action, z') = crowdsec_lookup_locked z k now in (rc, action, some z')

-- `NGX_SENTINEL_FCRDNS_*`
abbrev pub fcrdns_pending : ℕ
fcrdns_pending = 0

abbrev pub fcrdns_verified : ℕ
fcrdns_verified = 1

abbrev pub fcrdns_failed : ℕ
fcrdns_failed = 2

-- `if (rc != NGX_BUSY) return PENDING; return action;`
abbrev pub verdict_of : Rc → ℕ → ℕ
verdict_of busy action = action
verdict_of _ action = fcrdns_pending

-- `sentinel_shm_fcrdns_get`
unfoldable pub fcrdns_get : Option Zone → Bytes → ℕ → ℕ × Option Zone
fcrdns_get z k now = let (rc, action, z') = crowdsec_lookup z k now in (verdict_of rc action, z')

-- `sentinel_shm_fcrdns_set`. The verdict is stored in one byte.
unfoldable pub fcrdns_set : Option Zone → Bytes → ℕ → ℕ → ℕ → Bool → Rc × Option Zone
fcrdns_set z k verdict now ttl fits =
    crowdsec_upsert z k
      (record { expiry = now + ttl; action = verdict; generation = 0; redis_pulled = 0 }) now fits
