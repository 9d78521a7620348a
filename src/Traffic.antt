-- ===== src/Traffic.antt =====
-- Rate, admission and bandwidth limits, internal/traffic.
pub mod Limiter
pub mod Rate
pub mod Table
pub mod Bounded
pub mod Bandwidth
pub mod Queue
pub mod Admission
mod Tests
