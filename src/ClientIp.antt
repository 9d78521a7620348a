-- ===== src/ClientIp.antt =====
-- Client addresses behind trusted proxies, internal/clientip/resolver.go.
pub mod NetIp
pub mod Scan
pub mod Parse
pub mod Resolver
pub mod Quoting
pub mod RoundTrip
pub mod Chain
pub mod Spoofing
mod Tests
