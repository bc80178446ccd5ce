-- ===== src/DbusActivation.antt =====
-- internal/dbusactivation: D-Bus activation, from the packets of a request to the job that starts a
-- service and waits for its name.
pub mod Wire
pub mod Protocol
pub mod PacketRoundTrip
pub mod Messages
pub mod MessageRoundTrip
pub mod Environment
pub mod Filter
pub mod Store
pub mod Routes
pub mod Selected
pub mod Engine
pub mod Jobs
pub mod Outcome
pub mod ServiceFile
pub mod Index
pub mod Precedence
pub mod Priority
pub mod Lookup
pub mod Decided
mod Tests
mod IndexTests
