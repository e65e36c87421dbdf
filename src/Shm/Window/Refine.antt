-- ===== src/Shm/Window/Refine.antt =====
-- A node of sentinel_shm.c seen as a block or a list of event times.
use native.Mathlib.Nat.{mod-eq_of_lt, zero-add}
use nginx_http_sentinel_modu.Prelude.{
  ℕ, zero, suc, ◌+◌, ◌%◌, ◌≤◌, ◌≡◌, refl, ap, List, [], ◌∷◌, ◌++◌, arith, if◌then◌else◌, ltb, leb,
  ◌==◌, length, take, length-set,
}
use nginx_http_sentinel_modu.Nginx.{ok, busy}
use nginx_http_sentinel_modu.Shm.Zone.{Node, Zone}
use nginx_http_sentinel_modu.Shm.Window.{
  Reply, prune, lookup_node, unblock, push_event, record_node,
}
use nginx_http_sentinel_modu.Shm.Window.Prune.{
  window, times, IsValid, prune-times, prune-fields, take-set,
}

-- An identity is blocked until a time, or has a list of event times in the window.
pub record Track : Type 0 where
  pub until : ℕ
  pub events : List ℕ

abbrev pub view : Node → Track
view n = record { until = n.blocked_until; events = times n }

-- The specification. A block that has run out forgets the events before it.
abbrev pub kept : Zone → Track → ℕ → List ℕ
kept z t now = if t.until == 0 then window z.interval now t.events else []

abbrev pub spec_lookup : Zone → Track → ℕ → Reply × Track
spec_lookup z t now =
    if ltb now t.until
    then (record { rc = busy; count = z.threshold; blocked_until = t.until }, t)
    else let es = kept z t now in
      (record { rc = ok; count = length es; blocked_until = 0 }, record { until = 0; events = es })

-- An event joins the window; at the threshold the window becomes a block of `z.block` seconds.
abbrev spec_push : Zone → List ℕ → ℕ → Track
spec_push z es now =
    if leb z.threshold (suc (length es))
    then record { until = now + z.block; events = [] }
    else record { until = 0; events = es ++ now ∷ [] }

abbrev reply_of : Zone → Track → ℕ → Reply
reply_of z t now =
    if ltb now t.until
    then record { rc = busy; count = z.threshold; blocked_until = t.until }
    else record { rc = ok; count = length t.events; blocked_until = t.until }

abbrev pub spec_record : Zone → Track → ℕ → Reply × Track
spec_record z t now =
    if ltb now t.until
    then (reply_of z t now, t)
    else let t' = spec_push z (kept z t now) now in (reply_of z t' now, t')

length-take : (n : ℕ) (xs : List ℕ) → n ≤ length xs → length (take n xs) ≡ n
length-take zero xs h = refl
length-take (suc n) [] h = absurd (omega arith)
length-take (suc n) (x ∷ xs) h = ap suc (length-take n xs (omega arith))

length-times : (k : ℕ) (n : Node) → IsValid k n → length (times n) ≡ n.event_count
length-times k n v = length-take n.event_count n.events (omega arith)

-- What a lookup returns and leaves behind, as the specification says.
pub lookup_node_refines :
    (z : Zone) (n : Node) (now : ℕ)
    → IsValid z.threshold n
    → let (r, n') = lookup_node z n now in
      ((r, view n') ≡ spec_lookup z (view n) now) × IsValid z.threshold n'
unfolding lookup_node
lookup_node_refines z n now v =
    let m : Node = record n { last_seen = now } in
    let w : IsValid z.threshold m = record { head = v.head; room = v.room; size = v.size } in
    ground (
      arith,
      prune-times z m now w,
      prune-fields z m now,
      length-times z.threshold (prune z m now) (prune-times z m now w).1,
    )

unblock_lem :
    (z : Zone) (n : Node) (now : ℕ)
    → IsValid z.threshold n
    → (times (prune z (unblock n) now) ≡ kept z (view n) now)
      × IsValid z.threshold (prune z (unblock n) now)
      × ((prune z (unblock n) now).blocked_until ≡ 0)
unfolding unblock
unblock_lem z n now v =
    let m : Node = record n { blocked_until = 0; event_head = 0; event_count = 0 } in
    let w : IsValid z.threshold m = record { head = refl; room = omega arith; size = v.size } in
    ground (
      arith,
      prune-times z n now v,
      prune-times z m now w,
      prune-fields z m now,
      prune-fields z n now,
    )

push_event_lem :
    (z : Zone) (n : Node) (now : ℕ)
    → IsValid z.threshold n
    → n.blocked_until ≡ 0
    → (view (push_event z n now) ≡ spec_push z (times n) now)
      × IsValid z.threshold (push_event z n now)
unfolding push_event
push_event_lem z n now v b =
    let idx : (n.event_head + n.event_count) % z.threshold ≡ n.event_count =
      rw (v.head, zero-add) (mod-eq_of_lt v.room) in
    ground (
      arith,
      idx,
      length-times z.threshold n v,
      take-set n.events n.event_count now,
      length-set n.events n.event_count now,
    )

-- What recording an event returns and leaves behind, as the specification says.
pub record_node_refines :
    (z : Zone) (n : Node) (now : ℕ)
    → IsValid z.threshold n
    → let (r, n') = record_node z n now in
      ((r, view n') ≡ spec_record z (view n) now) × IsValid z.threshold n'
unfolding record_node
record_node_refines z n now v =
    let m = prune z (unblock n) now in
    let u = unblock_lem z n now v in
    let p = push_event_lem z m now u.1 u.2 in
    ground (arith, u, p, length-times z.threshold (push_event z m now) p.1)
