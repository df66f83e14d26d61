-- ===== src/Workload.antt =====
-- cote3mon/workload.py: `Requests` holds what is sent for each scenario, `Run` the loop, `Sent` proofs.
pub mod Requests
pub mod Run
pub mod Sent
mod Tests
