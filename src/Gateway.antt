-- ===== src/Gateway.antt =====
-- cote3mon/mock_gateway.py: `Fingerprint` is its keyed hash input, `Handler` the class; the others
-- hold proofs.
pub mod Fingerprint
pub mod Handler
pub mod Total
pub mod Storage
pub mod Serve
mod Tests
