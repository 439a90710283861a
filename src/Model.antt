-- ===== src/Model.antt =====
-- src/memory_blackbox/model: JSON values, canonical bytes, records, edges and ids.
pub mod Json
pub mod Values
pub mod Canonical
pub mod Records
pub mod Findings
pub mod Dump
pub mod Edges
pub mod Ids
