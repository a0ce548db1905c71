-- ===== src/RebootIntent.antt =====
-- experiments/thick-generations/closed-reboot-intent-model.py: one handoff of the closed records of a
-- node from an old boot to a new one, over a store whose writes may lose their acknowledgement.
pub mod Reconcile
pub mod Prefixes
pub mod Resume
pub mod Recovery
mod Tests
