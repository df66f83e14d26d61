-- ===== src/Forest.antt =====
-- cote3mon/iforest_runtime.py: `Walk` holds the descent of `score` in a tree, `Leaf` proofs.
pub mod Walk
pub mod Leaf
pub mod Score
mod Tests
