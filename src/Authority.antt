-- ===== src/Authority.antt =====
-- experiments/thick-generations/process-lifetime-authority-model.py: the authority over a storage
-- ledger that lives as long as one process.
pub mod State
pub mod Operations
pub mod Validity
pub mod Preservation
pub mod Laws
pub mod Traces
pub mod Cycle
pub mod Guards
mod Tests
