-- ===== src/Adapters.antt =====
-- src/memory_blackbox/adapters: the watcher of memory files and the mappings of memory backends.
pub mod MemoryMd
pub mod Watching
pub mod Offline
pub mod Reconcile
