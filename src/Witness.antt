-- ===== src/Witness.antt =====
-- proofos/witness.py: an independent, append-only ledger of signed checkpoints.
pub mod Observe
pub mod History
pub mod Sequence
pub mod Promises
mod Tests
