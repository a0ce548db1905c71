-- ===== src/Continuity.antt =====
-- experiments/thick-generations/authority-continuity-model.py: whether the head of an admission
-- authority continues the history that it was enrolled with. Nothing that it answers allows anything.
pub mod Evidence
pub mod Evaluate
pub mod Validity
pub mod Laws
pub mod Aliases
pub mod Reenrollment
mod Tests
