-- ===== src/Ring/Tests.antt =====
-- The theorems on the rings at an empty ring whose counters are about to wrap around.
use nginx_http_sentinel_modu.Prelude.{
  suc, ◌-◌, ◌%◌, ◌^◌, ◌≡◌, ◌<◌, ◌≤◌, ◌++◌, [], ◌∷◌, none, arith, codes, length, replicate,
  length-replicate, any, ◌⊎◌, false,
}
use nginx_http_sentinel_modu.Score.{cs_ban}
use nginx_http_sentinel_modu.Ring.{push_ring, Entry, empty_entry, Ring, used, enqueue_locked}
use nginx_http_sentinel_modu.Ring.Sink.{SinkSet, set_upsert}
use nginx_http_sentinel_modu.Ring.Sink.Table.{Sets, lookup, is_free, set_upsert-Sets}
use nginx_http_sentinel_modu.Ring.Fifo.{IsRing, queue, enqueue_fifo}

abbrev entry : Entry
entry = record { ip = codes "192.0.2.1"; action = cs_ban; expiry = 900 }

abbrev ring : Ring
ring = record {
  head = 2 ^ 64 - 1;
  tail = 2 ^ 64 - 1;
  dropped = 0;
  ring = replicate push_ring empty_entry;
}

ring_IsRing : IsRing ring
unfolding used
ring_IsRing = record {
  head = omega arith;
  tail = omega arith;
  bound = omega arith;
  size = length-replicate push_ring empty_entry;
}

enqueue_fifo_example :
    let r' = enqueue_locked ring entry in
    IsRing r'
    × (length (queue ring) < push_ring
        → (queue r' ≡ queue ring ++ (entry ∷ [])) × (r'.dropped ≡ ring.dropped))
    × (push_ring ≤ length (queue ring)
        → (queue r' ≡ queue ring) × (r'.dropped ≡ suc ring.dropped % 2 ^ 64))
enqueue_fifo_example = enqueue_fifo ring entry ring_IsRing

-- A set with one live slot and one free slot.
abbrev decisions : SinkSet
decisions = record {
  slots = record { ip = codes "192.0.2.7"; expiry = 800 } ∷ record { ip = []; expiry = 0 } ∷ [];
  count = 1;
}

set_upsert-Sets_example :
    Sets decisions.slots
      (codes "192.0.2.1")
      900
      (set_upsert decisions (codes "192.0.2.1") 900).slots
    ⊎ ((lookup (codes "192.0.2.1") decisions.slots ≡ none)
        × (any is_free decisions.slots ≡ false)
        × (set_upsert decisions (codes "192.0.2.1") 900 ≡ decisions))
set_upsert-Sets_example = set_upsert-Sets decisions (codes "192.0.2.1") 900 (omega arith)
