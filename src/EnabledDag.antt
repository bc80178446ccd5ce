-- ===== src/EnabledDag.antt =====
-- enabled_dag.go: the graph of the enabled services and the order in which they start. Names are
-- texts; a Go map is an association list, a set of names a list without repetition.
pub mod Names
pub mod Graph
pub mod Build
pub mod Project
pub mod Grown
pub mod Closed
pub mod Fits
pub mod Drained
mod BuildTests
pub mod Visit
pub mod Order
pub mod Fuel
pub mod Topological
pub mod Acyclic
pub mod GroupOrder
pub mod Grouped
pub mod GroupStart
mod Tests
mod GroupTests
