-- ===== src/Agent.antt =====
-- The agent itself, main.go.
pub mod Sharing
pub mod Shared
pub mod Lifetime
pub mod Merge
mod Tests
