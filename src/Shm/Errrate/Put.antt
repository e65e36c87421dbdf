-- ===== src/Shm/Errrate/Put.antt =====
-- Nodes that go back into the queue: the invariant, and what the map of tracks says afterwards.
use mathlib.Core.Path.{subst}
use nginx_http_sentinel_modu.Prelude.{
  ℕ, ◌≤◌, ◌<◌, ◌≡◌, refl, sym, ap, ◌∙◌, ◌∷◌, none, arith, if◌then◌else◌, All-mono, Bytes, bytes_eq,
  Bool-cases, inl, inr, length-replicate,
}
use nginx_http_sentinel_modu.Shm.Zone.{Node, Zone, expire, find_node, create_node, expire_batch}
use nginx_http_sentinel_modu.Shm.Zone.Find.{find-put, put-Distinct, remove-All, Absent-find}
use nginx_http_sentinel_modu.Shm.Zone.Expire.{expire-All, expire-Distinct}
use nginx_http_sentinel_modu.Shm.Window.{lookup_node, record_node, unblock, push_event}
use nginx_http_sentinel_modu.Shm.Window.Prune.{times, IsValid, prune-fields}
use nginx_http_sentinel_modu.Shm.Window.Refine.{
  Track, view, lookup_node_refines, record_node_refines,
}
use nginx_http_sentinel_modu.Shm.Errrate.{put}
use nginx_http_sentinel_modu.Shm.Errrate.Track.{
  no_track, track, current, IsPast, IsSound, UpTo, track-expire, spec_record_past, spec_lookup_past,
}

lookup_node-fields :
    (z : Zone) (n : Node) (now : ℕ)
    → ((lookup_node z n now).1.last_seen ≡ now) × ((lookup_node z n now).1.key ≡ n.key)
unfolding lookup_node
lookup_node-fields z n now = ground (arith, prune-fields z (record n { last_seen = now }) now)

record_node-fields :
    (z : Zone) (n : Node) (now : ℕ)
    → ((record_node z n now).1.last_seen ≡ n.last_seen) × ((record_node z n now).1.key ≡ n.key)
unfolding record_node unblock push_event
record_node-fields z n now = ground (
  arith,
  prune-fields z n now,
  prune-fields z (record n { blocked_until = 0; event_head = 0; event_count = 0 }) now,
)

-- A node in its new form, as the zone takes it back.
pub record IsFresh (z : Zone) (now : ℕ) (k : Bytes) (n : Node) : Type 0 where
  pub key : n.key ≡ k
  pub valid : IsValid z.threshold n
  pub past : IsPast now n

-- The queue after the expiry with the node of `k` put to the head.
pub put-IsSound :
    (z : Zone) (now : ℕ) (k : Bytes) (n : Node)
    → IsSound now z
    → IsFresh z now k n
    → IsSound now (put z (expire z now expire_batch) k n)
put-IsSound z now k n s f =
    let q = expire z now expire_batch in
    record {
      valid = (
        f.valid,
        remove-All (IsValid z.threshold) k q
            (expire-All (IsValid z.threshold) z now expire_batch s.valid),
      );
      distinct = put-Distinct k n q f.key (expire-Distinct z now expire_batch s.distinct);
      past =
          (f.past, remove-All (IsPast now) k q (expire-All (IsPast now) z now expire_batch s.past));
    }

pub insert-IsSound :
    (z : Zone) (now : ℕ) (k : Bytes) (n : Node)
    → IsSound now z
    → IsFresh z now k n
    → find_node k (expire z now expire_batch) ≡ none
    → IsSound now (record z { queue = n ∷ expire z now expire_batch })
insert-IsSound z now k n s f e =
    let q = expire z now expire_batch in
    record {
      valid = (f.valid, expire-All (IsValid z.threshold) z now expire_batch s.valid);
      distinct = (rw f.key (Absent-find k q e), expire-Distinct z now expire_batch s.distinct);
      past = (f.past, expire-All (IsPast now) z now expire_batch s.past);
    }

-- What the map says afterwards: the new track at `k`, and the old one elsewhere.
abbrev pub Updates : Zone → ℕ → Bytes → Track → Zone → Type 0
Updates z now k t z' =
    (j : Bytes)
    → current z now (track z'.queue j)
      ≡ (if bytes_eq j k then current z now t else current z now (track z.queue j))

pub put-Updates :
    (z : Zone) (now : ℕ) (k : Bytes) (n : Node)
    → IsSound now z
    → n.key ≡ k
    → Updates z now k (view n) (put z (expire z now expire_batch) k n)
put-Updates z now k n s e j = elim (Bool-cases (bytes_eq j k)) [
  | inl h ↦ rw (find-put k j n (expire z now expire_batch) e, h)
  | inr h ↦ rw (find-put k j n (expire z now expire_batch) e, h) (track-expire z now j s)
]

pub insert-Updates :
    (z : Zone) (now : ℕ) (k : Bytes) (n : Node)
    → IsSound now z
    → n.key ≡ k
    → Updates z now k (view n) (record z { queue = n ∷ expire z now expire_batch })
unfolding find_node
insert-Updates z now k n s e j = elim (Bool-cases (bytes_eq j k)) [
  | inl h ↦ rw (e, h)
  | inr h ↦ rw (e, h) (track-expire z now j s)
]

pub record-IsFresh :
    (z : Zone) (n : Node) (now : ℕ) (k : Bytes)
    → n.key ≡ k
    → IsValid z.threshold n
    → n.last_seen ≡ now
    → UpTo now (times n)
    → IsFresh z now k (record_node z n now).1
record-IsFresh z n now k e v l u =
    let n' = (record_node z n now).1 in
    let r = record_node_refines z n now v in
    let f = record_node-fields z n now in
    let seen : n'.last_seen ≡ now = f.0 ∙ l in
    let old : UpTo now (times n') =
      subst (UpTo now) (sym (ap (λ p. p.1.events) r.0)) (spec_record_past z now (view n) u) in
    record { key = f.1 ∙ e; valid = r.1; past = (omega arith, rw seen old) }

pub lookup-IsFresh :
    (z : Zone) (n : Node) (now : ℕ) (k : Bytes)
    → n.key ≡ k
    → IsValid z.threshold n
    → UpTo now (times n)
    → IsFresh z now k (lookup_node z n now).1
lookup-IsFresh z n now k e v u =
    let n' = (lookup_node z n now).1 in
    let r = lookup_node_refines z n now v in
    let f = lookup_node-fields z n now in
    let old : UpTo now (times n') =
      subst (UpTo now) (sym (ap (λ p. p.1.events) r.0)) (spec_lookup_past z now (view n) u) in
    record { key = f.1 ∙ e; valid = r.1; past = (omega arith, rw f.0 old) }

pub up-to : (now : ℕ) (n : Node) → IsPast now n → UpTo now (times n)
up-to now n p = All-mono (λ t. t ≤ n.last_seen) (λ t. t ≤ now) (λ t h. omega arith) (times n) p.1

pub create-IsValid :
    (z : Zone) (k : Bytes) (now : ℕ) → 0 < z.threshold → IsValid z.threshold (create_node z k now)
unfolding create_node
create-IsValid z k now h = record { head = refl; room = h; size = length-replicate z.threshold 0 }

pub create_fields :
    (z : Zone) (k : Bytes) (now : ℕ)
    → ((create_node z k now).key ≡ k)
      × ((create_node z k now).last_seen ≡ now)
      × (view (create_node z k now) ≡ no_track)
unfolding create_node
create_fields z k now = (refl, refl, refl)

-- The update by an operation's own track is that by its track on what counted before.
pub Updates-cong :
    (z : Zone) (now : ℕ) (k : Bytes) (t u : Track) (z' : Zone)
    → t ≡ u
    → Updates z now k t z'
    → Updates z now k u z'
Updates-cong z now k t u z' e h = subst (λ x. Updates z now k x z') e h
