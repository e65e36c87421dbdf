-- ===== src/Shm/Window.antt =====
-- sentinel_shm.c: the sliding window of one node. `lookup_node` and `record_node` are what
-- sentinel_shm_errrate_lookup and sentinel_shm_errrate_record do to the node that they have found
-- or made, with the lock held.
pub mod Prune
pub mod Refine
use nginx_http_sentinel_modu.Prelude.{
  ℕ, zero, suc, ◌+◌, ◌%◌, List, ltb, leb, ◌==◌, if◌then◌else◌, get_or, set,
}
use nginx_http_sentinel_modu.Nginx.{Rc, ok, busy}
use nginx_http_sentinel_modu.Shm.Zone.{Node, Zone}

-- The return code with the two output parameters.
pub record Reply : Type 0 where
  pub rc : Rc
  pub count : ℕ
  pub blocked_until : ℕ

-- The loop of sentinel_shm_prune, `left` rounds from index `i`: it reads the ring from
-- `event_head` and writes what it keeps to the front of the same array. `ts > now - interval` is
-- written without a subtraction.
unfoldable pub prune_loop : Zone → ℕ → ℕ → ℕ → ℕ → ℕ → List ℕ → ℕ × List ℕ
prune_loop z now head zero i keep events = (keep, events)
prune_loop z now head (suc left) i keep events =
    let ts = get_or events ((head + i) % z.threshold) 0 in
    let live = ltb now (ts + z.interval) in
    prune_loop z now head left (suc i) (if live then suc keep else keep)
      (if live then set events keep ts else events)

-- `sentinel_shm_prune`
unfoldable pub prune : Zone → Node → ℕ → Node
prune z n now =
    let (keep, events) = prune_loop z now n.event_head n.event_count 0 0 n.events in
    record n { event_head = 0; event_count = keep; events = events }

-- The body of sentinel_shm_errrate_lookup from `n->last_seen = now` on.
unfoldable pub lookup_node : Zone → Node → ℕ → Reply × Node
lookup_node z n0 now =
    let n = record n0 { last_seen = now } in
    if ltb now n.blocked_until
    then (record { rc = busy; count = z.threshold; blocked_until = n.blocked_until }, n)
    else let n' =
        if n.blocked_until == 0
        then prune z n now
        else record n { blocked_until = 0; event_head = 0; event_count = 0 } in
      (record { rc = ok; count = n'.event_count; blocked_until = 0 }, n')

-- `n->blocked_until = 0; n->event_head = 0; n->event_count = 0` on a block that has run out.
unfoldable pub unblock : Node → Node
unblock n =
    if n.blocked_until == 0
    then n
    else record n { blocked_until = 0; event_head = 0; event_count = 0 }

-- The event is written behind the kept ones; the threshold turns the window into a block.
unfoldable pub push_event : Zone → Node → ℕ → Node
push_event z n now =
    let idx = (n.event_head + n.event_count) % z.threshold in
    let n' = record n { events = set n.events idx now; event_count = suc n.event_count } in
    if leb z.threshold n'.event_count
    then record n' { blocked_until = now + z.block; event_head = 0; event_count = 0 }
    else n'

-- The body of sentinel_shm_errrate_record behind the search, on a node with `last_seen` set.
unfoldable pub record_node : Zone → Node → ℕ → Reply × Node
record_node z n now =
    if ltb now n.blocked_until
    then (record { rc = busy; count = z.threshold; blocked_until = n.blocked_until }, n)
    else let n' = push_event z (prune z (unblock n) now) now in
      let blocked = ltb now n'.blocked_until in
      (
        record {
          rc = if blocked then busy else ok;
          count = if blocked then z.threshold else n'.event_count;
          blocked_until = n'.blocked_until;
        },
        n',
      )
