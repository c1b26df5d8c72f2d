-- ===== src/KeyRecovery.antt =====
-- proofos/auditor_key_recovery.py: an auditor's key replaced by a threshold of recovery authorities.
pub mod Policy
pub mod Verify
pub mod Sign
pub mod Threshold
pub mod History
mod Tests
