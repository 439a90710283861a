-- ===== src/Anchor.antt =====
-- src/memory_blackbox/anchor: checkpoints published to an external log, and the check of a ledger
-- against what the log holds.
pub mod Statement
pub mod Store
pub mod Verify
pub mod Detection
pub mod Rollback
pub mod Honest
pub mod FileWitness
pub mod Rekor
pub mod Receipts
pub mod Publication
pub mod Published
pub mod Anchored
pub mod Roundtrip
