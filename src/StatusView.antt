-- ===== src/StatusView.antt =====
-- internal/statusview/model.go: the status model, the check of its topology, and its health.
pub mod Model
pub mod Validate
pub mod Health
pub mod Arrange
pub mod Finalize
pub mod Sorted
pub mod Ids
pub mod Identity
mod IdTests
mod Tests
pub mod Edges
pub mod Walk
pub mod Path
pub mod Topology
