-- ===== src/GuestShutdown.antt =====
-- experiments/thick-generations/layout-migration-guest-shutdown-model.py: the supervised shutdown of
-- the guests that a plan lists, one after another.
pub mod Enrollment
pub mod Snapshot
pub mod Receipts
pub mod Controller
pub mod Run
pub mod Protocol
pub mod Order
pub mod Turns
mod Tests
