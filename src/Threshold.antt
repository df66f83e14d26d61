-- ===== src/Threshold.antt =====
-- cote3mon/threshold.py: `Model` holds `PercentileModel`, `Fitted` proofs.
pub mod Model
pub mod Fitted
mod Tests
