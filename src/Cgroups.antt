-- ===== src/Cgroups.antt =====
-- internal/cgrouptrack: the control groups of units, and the processes that are moved into them.
pub mod Units
pub mod Directories
pub mod Descendants
pub mod Found
pub mod Reached
pub mod Moves
pub mod Migrate
pub mod Observed
pub mod Moved
pub mod Settled
mod Tests
