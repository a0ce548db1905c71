-- ===== src/Policy.antt =====
-- usr/libexec/pve-sharedlvmthin/sharedlvmthin_update_policy.py: the policy model of the APT guard.
pub mod Data
pub mod Protocol
pub mod Tuples
pub mod Catalogue
pub mod Evaluate
mod Tests
mod CatalogueTests
