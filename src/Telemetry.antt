-- ===== src/Telemetry.antt =====
-- Native operation telemetry: the latency histogram of opc-da-client/src/provider.rs and the
-- accounting of opc-da-client/src/inventory/telemetry.rs. A duration is its nanoseconds. The mutex and
-- the thread-local slot, which only say which collector is meant, are left out.
pub mod Histogram
pub mod Collector
pub mod Buckets
pub mod Ranks
pub mod Accounting
mod Tests
