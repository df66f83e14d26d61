-- ===== src/Training.antt =====
-- cote3mon/training.py: how labelled windows are split by run. `Splits` holds the two functions,
-- `Occurrences` the counting lemmas; the others hold proofs.
pub mod Occurrences
pub mod Splits
pub mod Parts
pub mod Partition
pub mod Stratified
pub mod Export
pub mod Spans
pub mod Depths
mod Tests
