-- ===== src/Logd/Spill.antt =====
-- cmd/sys-logd/spill.go: the files that keep log messages while they cannot be delivered. The file
-- of `pathForIndex(i)` is the entry `i` of the directory, the current file the entry 0.
pub mod Files
pub mod Replay
pub mod Shift
pub mod Lines
pub mod Stored
pub mod Written
pub mod Steps
pub mod Replayed
pub mod Jammed
pub mod Kept
pub mod RoundTrip
