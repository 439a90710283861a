-- ===== src/Capture.antt =====
-- src/memory_blackbox/capture: recording writes, reads and actions, and the proxies that do so for
-- a memory backend.
pub mod Engine
pub mod Linking
pub mod Effect
pub mod Writes
pub mod Intact
pub mod Rollbacks
pub mod History
pub mod Proxies
pub mod Gateway
pub mod Sidecar
