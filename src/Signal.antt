-- ===== src/Signal.antt =====
-- The signals that are gathered for one request. `none` for a request or a configuration is a NULL pointer; a NULL connection is an absent
-- sockaddr. The nginx and OpenSSL functions are the fields of `NginxLib`.
mod Tests
pub mod Ja4h
pub mod Config
pub mod Lists
pub mod Agent
pub mod Shape
pub mod Zones
pub mod Gather
