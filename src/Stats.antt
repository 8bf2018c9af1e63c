-- ===== src/Stats.antt =====
-- The statistics of stats.cpp.
pub mod Counters
pub mod Gauges
pub mod Changes
pub mod Report
