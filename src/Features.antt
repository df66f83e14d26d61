-- ===== src/Features.antt =====
-- cote3mon/features.py: `Names` holds the names of the features, `Percentile`
-- percentile, `Events` the telemetry events, `Buckets` and
-- `Rows` the two halves of aggregate_events, `Tables` the files of windows; the others hold proofs.
pub mod Names
pub mod Percentile
pub mod Events
pub mod Buckets
pub mod Rows
pub mod Columns
pub mod Windows
pub mod Counted
pub mod Returns
pub mod Tables
pub mod Back
pub mod Written
pub mod Described
mod Tests
