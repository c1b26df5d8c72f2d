-- ===== src/Journal.antt =====
-- proofos/journal.py: the append-only, hash-chained execution journal.
pub mod Events
pub mod Check
pub mod Sink
pub mod Chain
pub mod Appends
pub mod Tamper
pub mod Replica
pub mod Record
mod Tests
mod Audited
