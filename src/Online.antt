-- ===== src/Online.antt =====
-- scripts/guest-online-monitor.py: `State` holds the state and `ingest`, `Scoring` `score_ready`, `Loop` the
-- main loop and the summary; the others hold proofs.
pub mod State
pub mod Scoring
pub mod Loop
pub mod Held
pub mod Once
pub mod Traced
pub mod Whole
pub mod Lines
pub mod Turns
pub mod Ends
mod Tests
