-- ===== src/Audit.antt =====
-- cote3mon/audit_store.py: the reference implementation of the audit trusted application's receipt
-- chain. `Hex` is the hexadecimal text of digests, `Crypto` what the chain takes from `hashlib`
-- and `hmac`, `Store` the class; the others hold proofs.
pub mod Hex
pub mod Crypto
pub mod Store
pub mod Chain
pub mod Complete
pub mod Links
pub mod Loop
pub mod Tamper
pub mod Answers
pub mod Locked
pub mod Toy
mod Tests
