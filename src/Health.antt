-- ===== src/Health.antt =====
-- Health checks of upstreams, internal/health/worker.go.
pub mod Worker
pub mod Tracking
pub mod Run
mod Tests
