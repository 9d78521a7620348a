-- ===== src/Auth.antt =====
-- Who a request comes from, internal/auth/auth.go.
pub mod Base64
pub mod Users
pub mod Check
pub mod Credentials
pub mod Login
pub mod Session
pub mod Tests
