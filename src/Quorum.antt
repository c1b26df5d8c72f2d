-- ===== src/Quorum.antt =====
-- proofos/witness_quorum.py: a pinned quorum over signed witness receipts. Sets of texts and of
-- commitments are lists without repetitions. `valid_key` stands for the parser of public keys, which
-- is third-party code, and a threshold is a natural number: the constructor refuses a negative one as it
-- refuses 0.
pub mod Policy
pub mod Evaluate
pub mod Tally
pub mod Steps
pub mod Backed
pub mod Agreement
pub mod Overlap
pub mod Tests
