-- ===== src/Pairing.antt =====
-- agent/internal/pairing: one-time codes, the proofs of the two sides, and the pending pairing.
pub mod Code
pub mod Proof
pub mod Manager
mod Tests
