-- ===== src/Shm/Errrate/Ban.antt =====
-- The soft-ban, and what the operations do on a full zone.
use native.Mathlib.Nat.{le_trans}
use nginx_http_sentinel_modu.Prelude.{
  ℕ, ◌+◌, ◌≤◌, ◌<◌, ◌≡◌, refl, ap, ◌∙◌, Bool, true, false, List, [], ◌∷◌, none, some, arith,
  if◌then◌else◌, ltb, ◌==◌, All-mono, Bytes, bytes_eq_refl, Option-cases, inl, inr,
}
use nginx_http_sentinel_modu.Nginx.{ok, busy, error}
use nginx_http_sentinel_modu.Shm.Zone.{
  Node, Zone, expire, find_node, remove_node, create_node, expire_batch,
}
use nginx_http_sentinel_modu.Shm.Zone.Find.{find-All, find-key}
use nginx_http_sentinel_modu.Shm.Zone.Expire.{expire-All}
use nginx_http_sentinel_modu.Shm.Window.Prune.{IsValid}
use nginx_http_sentinel_modu.Shm.Window.Refine.{Track, spec_lookup}
use nginx_http_sentinel_modu.Shm.Errrate.{
  fail, quiet, put, ban_node, record_locked, softban_locked, errrate_lookup, softban_set,
}
use nginx_http_sentinel_modu.Shm.Errrate.Track.{
  track, track_of, current, IsPast, IsSound, track-expire,
}
use nginx_http_sentinel_modu.Shm.Errrate.Put.{
  IsFresh, Updates, put-IsSound, insert-IsSound, put-Updates, insert-Updates, create-IsValid,
  create_fields,
}
use nginx_http_sentinel_modu.Shm.Errrate.Refine.{lookup_refines}

-- The track of an identity banned until `u`.
abbrev pub ban : ℕ → Track
ban u = record { until = u; events = [] }

softban_new :
    (z : Zone) (k : Bytes) (now ttl : ℕ)
    → find_node k (expire z now expire_batch) ≡ none
    → softban_locked z k now ttl true ≡ (
      ok,
      record z { queue = ban_node (create_node z k now) now ttl ∷ expire z now expire_batch },
    )
unfolding softban_locked
softban_new z k now ttl e = rw (e, softban_locked)

softban_old :
    (z : Zone) (k : Bytes) (now ttl : ℕ) (n : Node) (fits : Bool)
    → find_node k (expire z now expire_batch) ≡ some n
    → softban_locked z k now ttl fits
      ≡ (ok, put z (expire z now expire_batch) k (ban_node n now ttl))
unfolding softban_locked
softban_old z k now ttl n fits e = rw (e, softban_locked)

ban-IsFresh :
    (z : Zone) (k : Bytes) (now ttl : ℕ) (n : Node)
    → n.key ≡ k
    → IsValid z.threshold n
    → IsFresh z now k (ban_node n now ttl)
ban-IsFresh z k now ttl n e v = record {
  key = e;
  valid = record { head = refl; room = omega arith; size = v.size };
  past = (omega arith, tt);
}

find-head : (k : Bytes) (n : Node) (q : List Node) → n.key ≡ k → find_node k (n ∷ q) ≡ some n
unfolding find_node
find-head k n q e = rw (e, bytes_eq_refl k)

-- A soft-ban with room in the slab succeeds, makes the key's track the ban, changes no other
-- key's track in what counts, and keeps the invariant.
softban_refines :
    (z : Zone) (k : Bytes) (now ttl : ℕ)
    → IsSound now z
    → 0 < z.threshold
    → let (rc, z') = softban_locked z k now ttl true in
      (rc ≡ ok)
      × (track z'.queue k ≡ ban (now + ttl))
      × Updates z now k (ban (now + ttl)) z'
      × IsSound now z'
softban_refines z k now ttl s h = elim (Option-cases (find_node k (expire z now expire_batch))) [
  | inl e ↦
      let n = ban_node (create_node z k now) now ttl in
      let c = create_fields z k now in
      let f = ban-IsFresh z k now ttl (create_node z k now) c.0 (create-IsValid z k now h) in
      rw (softban_new z k now ttl e) (
        refl,
        ap track_of (find-head k n (expire z now expire_batch) c.0),
        insert-Updates z now k n s f.key,
        insert-IsSound z now k n s f e,
      )
  | inr (m, e) ↦
      let n = ban_node m now ttl in
      let v =
        find-All (IsValid z.threshold) k _ (expire-All (IsValid z.threshold) z now _ s.valid) e in
      let f = ban-IsFresh z k now ttl m (find-key k (expire z now expire_batch) m e) v in
      rw (softban_old z k now ttl m true e) (
        refl,
        ap track_of (find-head k n (remove_node k (expire z now expire_batch)) f.key),
        put-Updates z now k n s f.key,
        put-IsSound z now k n s f,
      )
]

-- The invariant holds later on too.
IsSound-later : (z : Zone) (now later : ℕ) → now ≤ later → IsSound now z → IsSound later z
IsSound-later z now later h s = record {
  valid = s.valid;
  distinct = s.distinct;
  past = All-mono (IsPast now) (IsPast later) (λ n p. (le_trans p.0 h, p.1)) z.queue s.past;
}

threshold-softban :
    (z : Zone) (k : Bytes) (now ttl : ℕ)
    → (softban_locked z k now ttl true).1.threshold ≡ z.threshold
unfolding softban_locked
threshold-softban z k now ttl = ground arith

-- A soft-ban of `ttl` seconds set at `now` is in force from then on for exactly `ttl` seconds: a
-- lookup of the key replies that it is blocked until then, and from then on that it is clean.
pub softban_lasts :
    (z : Zone) (k : Bytes) (now ttl later : ℕ)
    → IsSound now z
    → 0 < z.threshold
    → 0 < ttl
    → now ≤ later
    → let (rc, z') = softban_set (some z) k now ttl true in
      (rc ≡ ok)
      × ((errrate_lookup z' k later).0 ≡ (
          if ltb later (now + ttl)
          then record { rc = busy; count = z.threshold; blocked_until = now + ttl }
          else quiet))
unfolding softban_set errrate_lookup
softban_lasts z k now ttl later s h pos le =
    let b = softban_refines z k now ttl s h in
    let z' = (softban_locked z k now ttl true).1 in
    let l = lookup_refines z' k later (IsSound-later z' now later le b.3) in
    let test : (ttl == 0) ≡ false = ground arith in
    rw test (
      b.0,
      l.0
          ∙ ap (λ t. (spec_lookup z' t later).0) b.1
          ∙ ground (arith, threshold-softban z k now ttl),
    )

-- On a full zone recording an event for a key that has no entry left fails, and so does a
-- soft-ban; no key's track changes in what counts.
pub full_zone :
    (z : Zone) (k : Bytes) (now ttl : ℕ)
    → IsSound now z
    → find_node k (expire z now expire_batch) ≡ none
    → ((record_locked z k now false).0 ≡ fail)
      × ((softban_locked z k now ttl false).0 ≡ error)
      × ((j : Bytes)
          → (current z now (track (record_locked z k now false).1.queue j)
              ≡ current z now (track z.queue j))
            × (current z now (track (softban_locked z k now ttl false).1.queue j)
                ≡ current z now (track z.queue j)))
unfolding record_locked softban_locked
full_zone z k now ttl s e =
    rw (e, record_locked, softban_locked)
      (refl, refl, λ j. (track-expire z now j s, track-expire z now j s))
