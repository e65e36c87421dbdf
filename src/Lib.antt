-- ===== src/Lib.antt =====
-- The sentinel module scores each request of an nginx location and enforces a verdict on it. This
-- library models its request path and the shared state behind it, and proves what makes each part
-- correct. Paths are from the repository's root.
--
-- Parts and files:
--   Score    src/sentinel_score.c: the saturating weighted sum of the signals
--            (sentinel_score_compute is `compute`) and the bands of the verdict (`to_verdict`).
--   Shm      src/sentinel_shm.c: a zone is its LRU queue, newest node first. Zone has the expiry,
--            Window the event ring of one node (`prune`, and the parts of lookup and record behind
--            the search), Errrate the locked operations on error-rate and velocity zones, Crowdsec
--            the ban table with its mark-and-sweep, and the verdict cache of src/sentinel_fcrdns.c,
--            Tree the search tree over the nodes (sentinel_shm_lookup is `tree_lookup`).
--            Each operation runs under the zone's mutex and is one step from zone to zone.
--   Feed     src/sentinel_feed.c: Lines cuts the buffer, Trailer checks the last line, Decide reads a
--            decision, Parse validates and applies (sentinel_feed_parse); Load has the gates in front
--            of it (sentinel_feed_do_load is `feed_do_load`) and the walk that collects the feeds.
--   Signal   the signals of a request, one function for each source file, and ngx_sentinel_get_ctx
--            (`compute_ctx`), which runs them in the order of the source. Ja4h is
--            src/sentinel_ja4h.c, whose buffer is a string with the two ways to leave it.
--   Fcrdns   src/sentinel_fcrdns.c: the handlers of the PTR and the forward lookup and the verdict
--            that they cache.
--   Ring     the rings of src/sentinel_redis.c and src/sentinel_cssink.c that take local bans from
--            the workers to a timer, and the sink's decision set.
--   Redis    src/sentinel_redis.c: the client that publishes the bans of the push ring and pulls those
--            of other nodes into the ban table. Redis.antt has the connection, Pull, Push and Cursor
--            the commands and replies, Run the timer and hiredis's callbacks as steps.
--   Tarpit   src/sentinel_tarpit.c: connection slots, start, the drip, and the race
--            for a slot.
--   Pow      src/sentinel_pow.c: challenge, signed cookie and dispatch.
--   Handler  the preaccess and the log handler of src/ngx_http_sentinel_module.c, which combine the
--            others.
--   Metrics  src/sentinel_metrics.c: the counters and what a request adds to them.
--   Config   src/ngx_http_sentinel_module.c: a location's configuration, created empty and merged
--            with its parent's (ngx_sentinel_merge_loc_conf is `merge_loc_conf`).
--   Nginx    return codes and the request; Prelude the helpers that all share.
-- The children of a part hold the lemmas and are named for what they prove; Tests has concrete runs.
--
-- Conventions. A number is a natural number, a score and a configured integer a signed one; a counter
-- that can wrap is reduced by its width where it is written. NULL is `none`. What nginx, OpenSSL, the
-- resolver and hiredis compute is a field of FeedLib, NginxLib, PrintLib, PowLib or ReplyLib, or of the
-- records World, Env and FileWorld, which say how the calls of one handler end. An allocation that may
-- fail is a Boolean argument; for the apply pass of a feed it is a function of the number of decisions
-- applied so far. In Score the crowdsec weight is in the range that the merge checks, so that the
-- products with it do not overflow.
--
-- Bounds. The loops are structural recursions. The sweeps of a feed run on as many rounds as there
-- are nodes and one more, which suffices since each round but the last deletes a node. A flush of the
-- push ring runs on one round more than the ring has slots, which suffices since each round takes an
-- entry; the drain loop of the sink runs on the ring size, as in the source.
--
-- Not modelled: the directive setters, the variables and the phase registration; the event adapter
-- between hiredis and nginx; the text of the metrics page; the file I/O of the feed and of the sink;
-- the HTML of the challenge page; the log. nginx's red-black tree is a parameter of Shm/Tree, which has
-- the module's part of it: the descent of a lookup and of an insertion; a write to a node, which the
-- tree and the queue share, is a step on both. The operations of the zones search the queue by key in its place. Other workers are not
-- interleaved within a feed's apply pass; the compare-and-swap loop of a tarpit slot is modelled
-- step by step in Tarpit/Race, apart from the start that uses it, where it succeeds at once.
pub mod Prelude
pub mod Score
pub mod Nginx
pub mod Shm
pub mod Feed
pub mod Signal
pub mod Ring
pub mod Tarpit
pub mod Pow
pub mod Handler
pub mod Redis
pub mod Metrics
pub mod Fcrdns
pub mod Config
