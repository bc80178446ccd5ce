-- ===== src/Restart.antt =====
-- deps.go: the services that are stopped and started with a service that is restarted.
pub mod Dependents
pub mod Closure
pub mod Table
pub mod Searched
pub mod Ended
pub mod Restarted
mod Tests
