-- ===== src/Stages.antt =====
-- The analyses under scripts/: `Ablation` holds stage5-feature-ablation.py, `Detectors`
-- stage3-train-evaluate.py, `Statistics` stage5-statistical-comparison.py, `Performance`, `Means` and
-- `Overhead` stage4-analyze-performance.py, `Collection` run-qemu-performance.py and `Runner`
-- run-qemu-experiments.py; `Coverage` holds proofs.
pub mod Ablation
pub mod Detectors
pub mod Statistics
pub mod Performance
pub mod Coverage
pub mod Means
pub mod Overhead
pub mod Collection
pub mod Runner
mod Tests
