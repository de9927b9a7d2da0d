-- ===== src/Metrics.antt =====
-- The performance counters of crates/diagnostics/src/lib.rs.
pub mod Counters
pub mod Log
pub mod Interleaving
