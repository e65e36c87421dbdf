-- ===== src/Ring/Sink.antt =====
-- The decision set of sentinel_cssink.c: a fixed array of slots, a free slot having expiry 0.
pub mod Table
use nginx_http_sentinel_modu.Prelude.{
  ℕ, zero, suc, ◌-◌, Bool, List, [], ◌∷◌, Option, none, some, ltb, leb, ◌==◌, ◌&&◌, not,
  if◌then◌else◌, length, Bytes, bytes_eq,
}
use nginx_http_sentinel_modu.Ring.{Ring, dequeue_locked, push_ring}

-- `sentinel_cssink_decision_t`
pub record SinkSlot : Type 0 where
  pub ip : Bytes
  pub expiry : ℕ

-- The set and its counter.
pub record SinkSet : Type 0 where
  pub slots : List SinkSlot
  pub count : ℕ

-- The live slot of an address.
unfoldable pub holds : Bytes → SinkSlot → Bool
holds ip d = not (d.expiry == 0) && bytes_eq d.ip ip

-- The first pass of sentinel_cssink_set_upsert: the array with the address refreshed, if it is
-- there.
unfoldable pub refresh : Bytes → ℕ → List SinkSlot → Option (List SinkSlot)
refresh ip expiry [] = none
refresh ip expiry (d ∷ ds) =
    let rest = refresh ip expiry ds in
    if holds ip d
    then some (record d { expiry = expiry } ∷ ds)
    else elim rest [ none ↦ none | some ds' ↦ some (d ∷ ds') ]

-- A new decision in the first free slot.
unfoldable pub occupy : Bytes → ℕ → List SinkSlot → Option (List SinkSlot)
occupy ip expiry [] = none
occupy ip expiry (d ∷ ds) =
    let rest = occupy ip expiry ds in
    if d.expiry == 0
    then some (record { ip = ip; expiry = expiry } ∷ ds)
    else elim rest [ none ↦ none | some ds' ↦ some (d ∷ ds') ]

-- `sentinel_cssink_set_upsert`
unfoldable pub set_upsert : SinkSet → Bytes → ℕ → SinkSet
set_upsert s ip expiry = elim (refresh ip expiry s.slots) [
  | some ds ↦ record s { slots = ds }
  | none ↦ elim (occupy ip expiry s.slots) [
    | some ds ↦ record { slots = ds; count = suc s.count }
    | none ↦ s
  ]
]

-- The loop of sentinel_cssink_set_expire: the array, the counter and the live slots.
unfoldable expire_slots : ℕ → List SinkSlot → ℕ → List SinkSlot × ℕ × ℕ
expire_slots now [] count = ([], count, 0)
expire_slots now (d ∷ ds) count =
    let skip = expire_slots now ds count in
    let drop = expire_slots now ds (count - 1) in
    if d.expiry == 0
    then (d ∷ skip.0, skip.1, skip.2)
    else if leb d.expiry now
    then (record d { expiry = 0 } ∷ drop.0, drop.1, drop.2)
    else (d ∷ skip.0, skip.1, suc skip.2)

-- `sentinel_cssink_set_expire`
unfoldable set_expire : SinkSet → ℕ → SinkSet × ℕ
set_expire s now =
    let (ds, count, live) = expire_slots now s.slots s.count in
    (record { slots = ds; count = count }, live)

-- The drain loop of sentinel_cssink_timer_handler, which takes at most `fuel` entries.
unfoldable pub drain : ℕ → ℕ → ℕ → Ring → SinkSet → Ring × SinkSet
drain strlen now zero r s = (r, s)
drain strlen now (suc fuel) r s =
    let (o, r') = dequeue_locked r in
    elim o [
      | none ↦ (r', s)
      | some e ↦ drain strlen now fuel r' (
          if ltb 0 (length e.ip) && ltb (length e.ip) strlen && ltb now e.expiry
          then set_upsert s e.ip e.expiry
          else s)
    ]

-- A decision line of the file that sentinel_cssink_rewrite writes: the address and the seconds
-- left.
unfoldable rewrite_lines : ℕ → List SinkSlot → List (Bytes × ℕ)
rewrite_lines now [] = []
rewrite_lines now (d ∷ ds) =
    let rest = rewrite_lines now ds in
    if d.expiry == 0 then rest else if leb d.expiry now then rest else (d.ip, d.expiry - now) ∷ rest

-- A tick of sentinel_cssink_timer_handler in the worker that owns the set, up to the file:
-- the ring, the set, and the decisions that the file then lists.
unfoldable sink_tick : ℕ → ℕ → Ring → SinkSet → Ring × SinkSet × List (Bytes × ℕ)
sink_tick strlen now r s =
    let (r', s') = drain strlen now push_ring r s in
    let (s'', live) = set_expire s' now in (r', s'', rewrite_lines now s''.slots)
