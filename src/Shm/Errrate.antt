-- ===== src/Shm/Errrate.antt =====
-- sentinel_shm.c: the locked operations on the error-rate and velocity zones. Each runs under the
-- zone's mutex, so it is one step from zone to zone. `none` for a zone is a NULL zone, context or
-- pool; `fits` is whether the slab allocation succeeds.
pub mod Track
pub mod Put
pub mod Ban
pub mod Refine
use nginx_http_sentinel_modu.Prelude.{
  ℕ, ◌+◌, Bool, List, ◌∷◌, Option, none, some, ◌==◌, if◌then◌else◌, Bytes,
}
use nginx_http_sentinel_modu.Nginx.{Rc, ok, error}
use nginx_http_sentinel_modu.Shm.Zone.{
  Node, Zone, expire_batch, expire, find_node, remove_node, create_node,
}
use nginx_http_sentinel_modu.Shm.Window.{Reply, lookup_node, record_node}

abbrev pub fail : Reply
fail = record { rc = error; count = 0; blocked_until = 0 }

abbrev pub quiet : Reply
quiet = record { rc = ok; count = 0; blocked_until = 0 }

-- The node of `k` in a new form, moved to the head: `sentinel_shm_touch` and the writes to it.
abbrev pub put : Zone → List Node → Bytes → Node → Zone
put z q k n = record z { queue = n ∷ remove_node k q }

-- sentinel_shm_errrate_lookup between lock and unlock.
unfoldable pub lookup_locked : Zone → Bytes → ℕ → Reply × Zone
lookup_locked z k now =
    let q = expire z now expire_batch in
    elim (find_node k q) [
      | none ↦ (quiet, record z { queue = q })
      | some n ↦ let (r, n') = lookup_node z n now in (r, put z q k n')
    ]

-- sentinel_shm_errrate_record between lock and unlock.
unfoldable pub record_locked : Zone → Bytes → ℕ → Bool → Reply × Zone
record_locked z k now fits =
    let q = expire z now expire_batch in
    elim (find_node k q) [
      | none ↦
          let (r, n') = record_node z (create_node z k now) now in
          if fits then (r, record z { queue = n' ∷ q }) else (fail, record z { queue = q })
      | some n ↦ let (r, n') = record_node z (record n { last_seen = now }) now in (r, put z q k n')
    ]

-- The writes of sentinel_shm_softban_set to its node.
abbrev pub ban_node : Node → ℕ → ℕ → Node
ban_node n now ttl = record n {
  last_seen = now;
  blocked_until = now + ttl;
  event_head = 0;
  event_count = 0;
}

-- sentinel_shm_softban_set between lock and unlock.
unfoldable pub softban_locked : Zone → Bytes → ℕ → ℕ → Bool → Rc × Zone
softban_locked z k now ttl fits =
    let q = expire z now expire_batch in
    elim (find_node k q) [
      | none ↦
          if fits
          then (ok, record z { queue = ban_node (create_node z k now) now ttl ∷ q })
          else (error, record z { queue = q })
      | some n ↦ (ok, put z q k (ban_node n now ttl))
    ]

-- `sentinel_shm_errrate_lookup`
unfoldable pub errrate_lookup : Option Zone → Bytes → ℕ → Reply × Option Zone
errrate_lookup none k now = (fail, none)
errrate_lookup (some z) k now = let (r, z') = lookup_locked z k now in (r, some z')

-- `sentinel_shm_errrate_record`
unfoldable pub errrate_record : Option Zone → Bytes → ℕ → Bool → Reply × Option Zone
errrate_record none k now fits = (fail, none)
errrate_record (some z) k now fits = let (r, z') = record_locked z k now fits in (r, some z')

-- `sentinel_shm_softban_set`
unfoldable pub softban_set : Option Zone → Bytes → ℕ → ℕ → Bool → Rc × Option Zone
softban_set none k now ttl fits = (error, none)
softban_set (some z) k now ttl fits =
    if ttl == 0
    then (error, some z)
    else let (r, z') = softban_locked z k now ttl fits in (r, some z')
