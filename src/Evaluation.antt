-- ===== src/Evaluation.antt =====
-- cote3mon/evaluation.py: `Counts` and `Metrics` hold `classification_metrics`, `Bootstrap` the intervals
-- and `Delays` the detection delays; the others hold proofs.
pub mod Counts
pub mod Metrics
pub mod Bootstrap
pub mod Delays
pub mod Groups
pub mod Detected
pub mod Totals
pub mod Resampled
pub mod Intervals
mod Tests
