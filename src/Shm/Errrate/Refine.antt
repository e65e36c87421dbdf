-- ===== src/Shm/Errrate/Refine.antt =====
-- The operations on a zone of sentinel_shm.c against its map from keys to tracks.
use nginx_http_sentinel_modu.Prelude.{
  ℕ, ◌<◌, ◌≡◌, refl, sym, ap, ◌∙◌, Bool, true, ◌∷◌, Option, none, some, arith, Bytes, bytes_eq,
  bytes_eq→eq, Bool-cases, Option-cases, inl, inr,
}
use nginx_http_sentinel_modu.Shm.Zone.{Node, Zone, expire, find_node, create_node, expire_batch}
use nginx_http_sentinel_modu.Shm.Zone.Find.{find-All, find-key}
use nginx_http_sentinel_modu.Shm.Zone.Expire.{expire-All, expire-Distinct}
use nginx_http_sentinel_modu.Shm.Window.{lookup_node, record_node}
use nginx_http_sentinel_modu.Shm.Window.Prune.{times, IsValid}
use nginx_http_sentinel_modu.Shm.Window.Refine.{
  Track, view, spec_lookup, spec_record, lookup_node_refines, record_node_refines,
}
use nginx_http_sentinel_modu.Shm.Errrate.{quiet, put, lookup_locked, record_locked}
use nginx_http_sentinel_modu.Shm.Errrate.Track.{
  no_track, track, track_of, current, IsPast, IsSound, UpTo, track-expire, spec_record-current,
  spec_lookup-current, spec_lookup_quiet,
}
use nginx_http_sentinel_modu.Shm.Errrate.Put.{
  Updates, Updates-cong, put-IsSound, insert-IsSound, put-Updates, insert-Updates, record-IsFresh,
  lookup-IsFresh, up-to, create-IsValid, create_fields,
}

spec_record_same :
    (z : Zone) (now : ℕ) (t u : Track)
    → current z now t ≡ current z now u
    → spec_record z t now ≡ spec_record z u now
spec_record_same z now t u e =
    sym (spec_record-current z now t)
    ∙ ap (λ x. spec_record z x now) e
    ∙ spec_record-current z now u

-- The node found behind the expiry stands for what the zone knew of the key.
found_current :
    (z : Zone) (k : Bytes) (now : ℕ) (o : Option Node)
    → IsSound now z
    → find_node k (expire z now expire_batch) ≡ o
    → current z now (track_of o) ≡ current z now (track z.queue k)
found_current z k now o s e = ap (λ x. current z now (track_of x)) (sym e) ∙ track-expire z now k s

record_new :
    (z : Zone) (k : Bytes) (now : ℕ)
    → find_node k (expire z now expire_batch) ≡ none
    → let (r, n) = record_node z (create_node z k now) now in
      record_locked z k now true ≡ (r, record z { queue = n ∷ expire z now expire_batch })
unfolding record_locked
record_new z k now e = rw (e, record_locked)

record_old :
    (z : Zone) (k : Bytes) (now : ℕ) (n0 : Node) (fits : Bool)
    → find_node k (expire z now expire_batch) ≡ some n0
    → let (r, n) = record_node z (record n0 { last_seen = now }) now in
      record_locked z k now fits ≡ (r, put z (expire z now expire_batch) k n)
unfolding record_locked
record_old z k now n0 fits e = rw (e, record_locked)

-- Recording an event acts on the map of tracks as the specification says, whether the key's node
-- is there, has been expired on the way, or is new: the reply is that of the key's track, which
-- takes the specified new value, and no other key's track changes in what counts. The invariant
-- is kept. It holds if the slab has room and the threshold is positive.
pub record_refines :
    (z : Zone) (k : Bytes) (now : ℕ)
    → IsSound now z
    → 0 < z.threshold
    → let (r, z') = record_locked z k now true in
      let (r0, t) = spec_record z (track z.queue k) now in
      (r ≡ r0) × Updates z now k t z' × IsSound now z'
record_refines z k now s h = elim (Option-cases (find_node k (expire z now expire_batch))) [
  | inl e ↦
      let n0 = create_node z k now in
      let c = create_fields z k now in
      let v = create-IsValid z k now h in
      let n' = (record_node z n0 now).1 in
      let r = record_node_refines z n0 now v in
      let u0 : UpTo now (times n0) = rw (ap (λ t. t.events) c.2) tt in
      let f = record-IsFresh z n0 now k c.0 v c.1 u0 in
      let same =
        spec_record_same z now (view n0) (track z.queue k)
          (ap (current z now) c.2 ∙ found_current z k now none s e) in
      rw (record_new z k now e) (
        ap (λ p. p.0) (r.0 ∙ same),
        Updates-cong z now k (view n') _ (record z { queue = n' ∷ expire z now expire_batch })
            (ap (λ p. p.1) (r.0 ∙ same)) (insert-Updates z now k n' s f.key),
        insert-IsSound z now k n' s f e,
      )
  | inr (m, e) ↦
      let n0 : Node = record m { last_seen = now } in
      let v0 =
        find-All (IsValid z.threshold) k _ (expire-All (IsValid z.threshold) z now _ s.valid) e in
      let p0 = find-All (IsPast now) k _ (expire-All (IsPast now) z now _ s.past) e in
      let v : IsValid z.threshold n0 = record { head = v0.head; room = v0.room; size = v0.size } in
      let n' = (record_node z n0 now).1 in
      let r = record_node_refines z n0 now v in
      let f =
        record-IsFresh z n0 now k (find-key k (expire z now expire_batch) m e) v refl
          (up-to now m p0) in
      let same =
        spec_record_same z now (view n0) (track z.queue k) (found_current z k now (some m) s e) in
      rw (record_old z k now m true e) (
        ap (λ p. p.0) (r.0 ∙ same),
        Updates-cong z now k (view n') _ (put z (expire z now expire_batch) k n')
            (ap (λ p. p.1) (r.0 ∙ same)) (put-Updates z now k n' s f.key),
        put-IsSound z now k n' s f,
      )
]

lookup_new :
    (z : Zone) (k : Bytes) (now : ℕ)
    → find_node k (expire z now expire_batch) ≡ none
    → lookup_locked z k now ≡ (quiet, record z { queue = expire z now expire_batch })
unfolding lookup_locked
lookup_new z k now e = rw (e, lookup_locked)

lookup_old :
    (z : Zone) (k : Bytes) (now : ℕ) (n0 : Node)
    → find_node k (expire z now expire_batch) ≡ some n0
    → let (r, n) = lookup_node z n0 now in
      lookup_locked z k now ≡ (r, put z (expire z now expire_batch) k n)
unfolding lookup_locked
lookup_old z k now n0 e = rw (e, lookup_locked)

no_track_lookup : (z : Zone) (now : ℕ) → (spec_lookup z no_track now).0 ≡ quiet
no_track_lookup z now = ground arith

expire-IsSound :
    (z : Zone) (now : ℕ)
    → IsSound now z
    → IsSound now (record z { queue = expire z now expire_batch })
expire-IsSound z now s = record {
  valid = expire-All (IsValid z.threshold) z now expire_batch s.valid;
  distinct = expire-Distinct z now expire_batch s.distinct;
  past = expire-All (IsPast now) z now expire_batch s.past;
}

-- An update of `k` to what already counts there is no update.
quiet-Updates :
    (z : Zone) (now : ℕ) (k : Bytes) (t : Track) (z' : Zone)
    → current z now t ≡ current z now (track z.queue k)
    → Updates z now k t z'
    → (j : Bytes) → current z now (track z'.queue j) ≡ current z now (track z.queue j)
quiet-Updates z now k t z' e u j = elim (Bool-cases (bytes_eq j k)) [
  | inl h ↦ u j ∙ (rw (h, bytes_eq→eq j k h) e)
  | inr h ↦ u j ∙ (rw h refl)
]

-- A lookup replies as the key's track says, changes no key's track in what counts, and keeps the
-- invariant: neither the expiry, nor the compaction, nor the reset of a block that has run out,
-- nor the move to the head of the queue is seen later.
pub lookup_refines :
    (z : Zone) (k : Bytes) (now : ℕ)
    → IsSound now z
    → let (r, z') = lookup_locked z k now in
      (r ≡ (spec_lookup z (track z.queue k) now).0)
      × ((j : Bytes) → current z now (track z'.queue j) ≡ current z now (track z.queue j))
      × IsSound now z'
lookup_refines z k now s = elim (Option-cases (find_node k (expire z now expire_batch))) [
  | inl e ↦
      let c = found_current z k now none s e in
      let same = ap (λ x. (spec_lookup z x now).0) c in
      rw (lookup_new z k now e) (
        sym (no_track_lookup z now)
            ∙ sym (spec_lookup-current z now no_track)
            ∙ same
            ∙ spec_lookup-current z now (track z.queue k),
        (λ j. track-expire z now j s),
        expire-IsSound z now s,
      )
  | inr (n, e) ↦
      let v =
        find-All (IsValid z.threshold) k _ (expire-All (IsValid z.threshold) z now _ s.valid) e in
      let p = find-All (IsPast now) k _ (expire-All (IsPast now) z now _ s.past) e in
      let n' = (lookup_node z n now).1 in
      let r = lookup_node_refines z n now v in
      let f =
        lookup-IsFresh z n now k (find-key k (expire z now expire_batch) n e) v (up-to now n p) in
      let c = found_current z k now (some n) s e in
      rw (lookup_old z k now n e) (
        ap (λ q. q.0) r.0
            ∙ sym (spec_lookup-current z now (view n))
            ∙ ap (λ x. (spec_lookup z x now).0) c
            ∙ spec_lookup-current z now (track z.queue k),
        quiet-Updates z now k (view n') (put z (expire z now expire_batch) k n')
            (ap (λ q. current z now q.1) r.0 ∙ spec_lookup_quiet z now (view n) ∙ c)
            (put-Updates z now k n' s f.key),
        put-IsSound z now k n' s f,
      )
]
