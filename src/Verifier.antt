-- ===== src/Verifier.antt =====
-- proofos/verifier.py: the deterministic kernel that decides VERIFIED or ABSTAIN.
pub mod Types
pub mod Evaluate
pub mod Assess
pub mod Verify
pub mod Settled
pub mod Decides
pub mod Declared
pub mod Soundness
pub mod Independence
pub mod Reports
pub mod Assessed
pub mod Honest
mod Tests
