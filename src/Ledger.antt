-- ===== src/Ledger.antt =====
-- src/memory_blackbox/ledger: the append-only store and the verification of its hash chain.
pub mod Chain
pub mod Store
pub mod Merkle
pub mod Linked
pub mod Divergence
pub mod Binding
pub mod Deletion
pub mod Honest
pub mod History
pub mod Payloads
