-- ===== src/Registration.antt =====
-- usr/libexec/pve-sharedlvmthin/sharedlvmthin-registration-plan.py: the preview of a registration of
-- Thick storage on a volume group, from evidence that was collected on the nodes.
pub mod Evidence
pub mod Plan
pub mod Members
pub mod Laws
mod Tests
