-- ===== src/ConfigCas.antt =====
-- experiments/thick-generations/layout-migration-config-cas-model.py: the inspection of the trace of
-- one compare-and-swap of storage.cfg and of its settlement.
pub mod Trace
pub mod Bound
pub mod Admission
pub mod Effects
pub mod Settlement
pub mod Admitted
mod Tests
mod AdmittedTests
