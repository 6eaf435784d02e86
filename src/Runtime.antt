-- ===== src/Runtime.antt =====
-- crates/meepo-runtime: projections over the event ledger.
pub mod Mapping
pub mod Session
pub mod Runner
pub mod Checkpoint
pub mod Projection
pub mod Compaction
