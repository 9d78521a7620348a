-- ===== src/Routes.antt =====
-- Which route answers a request, internal/database/route_resolver.go and the lookups of
-- internal/database/database.go.
pub mod Domain
pub mod Normal
pub mod Matcher
pub mod Wildcard
pub mod Compiled
pub mod Snapshot
pub mod Collect
pub mod Resolve
pub mod Precedence
pub mod Reload
mod Tests
