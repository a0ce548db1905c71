-- ===== src/LazyGuard.antt =====
-- experiments/thick-generations/lazy_zero_guard_model.py: the epochs of a clone device that reads
-- unwritten regions as zeroes. The device graph is a fixture; a guard receipt binds one epoch of it.
pub mod Fixture
pub mod Epoch
pub mod Laws
pub mod Runs
mod Tests
