-- ===== src/Feed.antt =====
-- sentinel_feed.c: the crowdsec feed. `Lines` cuts the buffer, `Trailer` checks the last line,
-- `Decide` reads a decision line, `Parse` validates and applies a whole feed.
-- nginx's and OpenSSL's functions are the fields of `FeedLib`.
mod Tests
pub mod Lines
pub mod Trailer
pub mod Decide
pub mod Parse
pub mod Load
