-- ===== src/Orchestrd.antt =====
-- The daemon sys-orchestrd (cmd/sys-orchestrd), which keeps one unit or one group started.
pub mod Daemon
pub mod Fuse
pub mod World
pub mod Handlers
pub mod Steps
pub mod Stable
pub mod Counter
pub mod Retry
pub mod Announced
pub mod Kept
pub mod Sync
pub mod Tests
