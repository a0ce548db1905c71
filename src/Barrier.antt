-- ===== src/Barrier.antt =====
-- experiments/thick-generations/layout-migration-barrier-model.py: the barrier of four nodes that
-- stops the services before a package transaction, and the journal of its twelve actions.
pub mod Enrollment
pub mod Observation
pub mod Journal
pub mod Controller
pub mod Run
pub mod Protocol
pub mod Steps
pub mod Sound
pub mod Order
pub mod Schedule
pub mod Drains
pub mod RunTests
pub mod Size
pub mod Laws
mod Tests
