-- ===== src/Stream.antt =====
-- How the agent is configured from outside: internal/streaming/manager.go, and the polling of the
-- control plane in main.go.
pub mod Manager
pub mod Run
pub mod Poll
pub mod Retry
pub mod Tests
