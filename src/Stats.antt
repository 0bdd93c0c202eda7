-- ===== src/Stats.antt =====
-- src/core/StatsBucket.cc, StatsBucket.hpp and StatisticsStore.hpp: the counters of chosen flows, summed
-- over switches, with their speeds.
pub mod Store
pub mod Buckets
pub mod Tracking
pub mod Polling
mod Examples
