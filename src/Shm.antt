-- ===== src/Shm.antt =====
-- sentinel_shm.c: the shared-memory zone. `Zone` has the node, the LRU queue and its expiry,
-- `Window` the sliding window of one node, `Errrate` and `Crowdsec` the locked operations, `Tree`
-- the search tree over the nodes.
mod Tests
pub mod Zone
pub mod Window
pub mod Errrate
pub mod Crowdsec
pub mod Tree
