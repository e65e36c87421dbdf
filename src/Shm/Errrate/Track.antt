-- ===== src/Shm/Errrate/Track.antt =====
-- The abstract zone: a map from keys to tracks, in which an expired entry and a missing one are
-- the same.
use nginx_http_sentinel_modu.Prelude.{
  ℕ, ◌+◌, ◌≤◌, ◌≡◌, refl, sym, ap, ◌∙◌, List, [], ◌∷◌, Option, none, some, arith, if◌then◌else◌,
  ltb, All, Bytes, Bool-cases, Option-cases, inl, inr, All-filter, All-append,
}
use nginx_http_sentinel_modu.Shm.Zone.{Node, Zone, expire, find_node, expire_batch}
use nginx_http_sentinel_modu.Shm.Zone.Find.{Distinct, find-All}
use nginx_http_sentinel_modu.Shm.Zone.Expire.{IsIdle, find-expire, expired-IsIdle}
use nginx_http_sentinel_modu.Shm.Window.Prune.{in_window, window, times, IsValid}
use nginx_http_sentinel_modu.Shm.Window.Refine.{Track, view, kept, spec_lookup, spec_record}

abbrev pub no_track : Track
no_track = record { until = 0; events = [] }

-- What the queue knows of a key.
abbrev pub track_of : Option Node → Track
track_of none = no_track
track_of (some n) = view n

abbrev pub track : List Node → Bytes → Track
track q k = track_of (find_node k q)

-- What counts of a track at a time: the block while it runs, else the events in the window.
abbrev pub current : Zone → ℕ → Track → Track
current z now t = if ltb now t.until then t else record { until = 0; events = kept z t now }

-- A node's events are not after the time when it was last seen, and that is not after `now`.
abbrev pub IsPast : ℕ → Node → Type 0
IsPast now n = (n.last_seen ≤ now) × All (λ t. t ≤ n.last_seen) (times n)

-- A zone as the operations leave it, read at a time that does not lie before its last use.
pub record IsSound (now : ℕ) (z : Zone) : Type 0 where
  pub valid : All (IsValid z.threshold) z.queue
  pub distinct : Distinct z.queue
  pub past : All (IsPast now) z.queue

window-old :
    (interval now m : ℕ) (es : List ℕ)
    → m + interval ≤ now
    → All (λ t. t ≤ m) es
    → window interval now es ≡ []
window-old interval now m [] h a = refl
window-old interval now m (e ∷ es) h a =
    let rest = window-old interval now m es h a.1 in ground (arith, rest)

-- An idle node counts for nothing.
idle-current :
    (z : Zone) (now : ℕ) (n : Node)
    → IsIdle z.interval now n
    → IsPast now n
    → current z now (view n) ≡ no_track
idle-current z now n i p = ground (arith, window-old z.interval now n.last_seen (times n) i.1 p.1)

no_track-current : (z : Zone) (now : ℕ) → current z now no_track ≡ no_track
no_track-current z now = ground arith

-- The expiry is not seen through `current`: what it removes counts for nothing.
pub track-expire :
    (z : Zone) (now : ℕ) (k : Bytes)
    → IsSound now z
    → current z now (track (expire z now expire_batch) k) ≡ current z now (track z.queue k)
track-expire z now k s = elim (Option-cases (find_node k (expire z now expire_batch))) [
  | inl e ↦ elim (Option-cases (find_node k z.queue)) [
    | inl g ↦ rw (e, g)
    | inr (n, g) ↦
        rw (e, g)
          (no_track-current z now
            ∙ sym (
                idle-current z now n (expired-IsIdle z now expire_batch k n e g)
                  (find-All (IsPast now) k z.queue {n = n} s.past g)))
  ]
  | inr (n, e) ↦ rw (e, find-expire z now expire_batch k n e)
]

window_idem :
    (interval now : ℕ) (es : List ℕ)
    → window interval now (window interval now es) ≡ window interval now es
window_idem interval now [] = refl
window_idem interval now (e ∷ es) = elim (Bool-cases (ltb now (e + interval))) [
  | inl h ↦ rw h (rw h (ap (◌∷◌ e) (window_idem interval now es)))
  | inr h ↦ rw h (window_idem interval now es)
]

-- Only what counts of a track bears on an operation.
pub spec_record-current :
    (z : Zone) (now : ℕ) (t : Track) → spec_record z (current z now t) now ≡ spec_record z t now
spec_record-current z now t = ground (arith, window_idem z.interval now t.events)

pub spec_lookup-current :
    (z : Zone) (now : ℕ) (t : Track)
    → (spec_lookup z (current z now t) now).0 ≡ (spec_lookup z t now).0
spec_lookup-current z now t = ground (arith, window_idem z.interval now t.events)

-- A lookup changes nothing that counts.
pub spec_lookup_quiet :
    (z : Zone) (now : ℕ) (t : Track) → current z now (spec_lookup z t now).1 ≡ current z now t
spec_lookup_quiet z now t = ground (arith, window_idem z.interval now t.events)

abbrev pub UpTo : ℕ → List ℕ → Type 0
UpTo m = All (λ t. t ≤ m)

pub spec_record_past :
    (z : Zone) (now : ℕ) (t : Track) → UpTo now t.events → UpTo now (spec_record z t now).1.events
spec_record_past z now t a =
    let w = All-filter (λ e. e ≤ now) (in_window z.interval now) t.events a in
    let push =
      λ (es : List ℕ) (h : UpTo now es). All-append (λ e. e ≤ now) es (now ∷ []) h (omega arith) in
    ground (arith, w, push (window z.interval now t.events) w, push [] tt)

pub spec_lookup_past :
    (z : Zone) (now : ℕ) (t : Track) → UpTo now t.events → UpTo now (spec_lookup z t now).1.events
spec_lookup_past z now t a =
    let w = All-filter (λ e. e ≤ now) (in_window z.interval now) t.events a in ground (arith, w)
