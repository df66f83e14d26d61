-- ===== src/Monitor.antt =====
-- cote3mon/monitor.py: `Batch` holds `monitor_batch` over the audit store that `LocalAuditBackend`
-- wraps; `Optee` holds the backend that runs the client of the trusted application; the others hold
-- proofs.
pub mod Batch
pub mod Steps
pub mod Accepted
pub mod Returns
pub mod Optee
pub mod Binding
pub mod Load
mod Tests
