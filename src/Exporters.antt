-- ===== src/Exporters.antt =====
-- src/memory_blackbox/exporters: graphs and time charts as text, findings as a SARIF document.
pub mod Graph
pub mod Declared
pub mod Sarif
pub mod Rules
