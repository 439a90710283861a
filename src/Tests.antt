-- ===== src/Tests.antt =====
-- Concrete runs of the model: the witnesses of the theorems with hypotheses, and tests.
pub mod Codec
pub mod Ledgers
pub mod Merkle
pub mod Chain
pub mod Dag
pub mod Queries
pub mod Ids
pub mod Rollback
pub mod Capture
pub mod Anchors
pub mod Reports
pub mod Detectors
pub mod Logs
pub mod Watcher
pub mod Keys
pub mod Commands
