-- ===== src/Detectors.antt =====
-- src/memory_blackbox/detectors: the detectors that need no other package.
pub mod WriteRate
pub mod UnicodeSmuggling
pub mod ProvenanceMissing
