-- ===== src/Anchor/Rekor.antt =====
-- src/memory_blackbox/anchor/rekor.py: the client of a Rekor transparency log.
pub mod Inclusion
pub mod Walk
pub mod Binds
pub mod Sound
pub mod Transport
pub mod Entry
pub mod Client
pub mod Receipt
pub mod Accepted
pub mod Witnessed
