-- ===== src/Control.antt =====
-- What the controllers of experiments/thick-generations/layout-migration-barrier-model.py and
-- layout-migration-guest-shutdown-model.py share: an object that its backend's calls can reach.
pub mod State
pub mod Calls
pub mod Sound
