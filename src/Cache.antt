-- ===== src/Cache.antt =====
-- The shared response cache, internal/cache/cache.go.
pub mod Store
pub mod Lru
pub mod Refines
pub mod Run
pub mod Headers
pub mod Capture
mod Tests
