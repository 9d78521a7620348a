-- ===== src/Gateway.antt =====
-- The request handlers of main.go: the gates that a request passes on its way to an upstream, and
-- the handler that checks the answer to a challenge.
pub mod Request
pub mod Pages
pub mod World
pub mod Gates
pub mod Forward
pub mod Handler
pub mod Closed
pub mod Order
pub mod Chain
pub mod Noted
pub mod Uncached
pub mod ZeroTrust
pub mod Tests
