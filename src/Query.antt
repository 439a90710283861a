-- ===== src/Query.antt =====
-- src/memory_blackbox/query: the forensic queries over the ledger and the DAG.
pub mod BlastRadius
pub mod Rollback
pub mod Timeline
pub mod Ranking
pub mod Candidates
pub mod Roots
pub mod Trace
pub mod Integrity
