-- ===== src/Propertyd.antt =====
-- cmd/sys-propertyd: the daemon that keeps which units and groups are enabled and running.
pub mod Store
pub mod Lists
pub mod Properties
pub mod Steps
pub mod Unseen
pub mod Saved
pub mod Effects
pub mod Effective
mod Tests
