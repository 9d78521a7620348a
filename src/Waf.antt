-- ===== src/Waf.antt =====
-- The web application firewall, internal/waf/waf.go.
pub mod Engine
pub mod Verdict
mod Tests
