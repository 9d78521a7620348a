-- ===== src/Metrics.antt =====
-- Counters of requests, internal/metrics/metrics.go.
pub mod Recorder
pub mod Errors
pub mod Counts
pub mod Writer
mod Tests
