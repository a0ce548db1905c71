-- ===== src/Supervisor.antt =====
-- experiments/thick-generations/prelive_supervisor_model.py: one run of a command under a supervisor
-- that records its intent first and, whatever fails, settles the child and records what is known.
pub mod Requests
pub mod Receipts
pub mod Model
pub mod Run
pub mod Protocol
pub mod Exit
pub mod Laws
pub mod Once
pub mod Evidence
mod Tests
