-- ===== src/Recovery.antt =====
-- proofos_agent/recovery.py: the bounded loop of turns, decisions and collections.
pub mod Notes
pub mod Loop
pub mod Outcome
pub mod Completion
mod Tests
