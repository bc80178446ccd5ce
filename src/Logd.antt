-- ===== src/Logd.antt =====
-- The log daemon (cmd/sys-logd): the broker that takes log records of many peers.
pub mod Limiter
pub mod Limits
pub mod Protocol
pub mod Serve
pub mod Delivery
pub mod Sink
pub mod Acknowledged
pub mod Fallback
pub mod Backoff
pub mod Spill
pub mod Tests
pub mod SinkTests
pub mod SpillTests
