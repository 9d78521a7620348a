-- ===== src/Balancer.antt =====
-- Load balancing and failover, internal/balancer/balancer.go.
pub mod Pick
pub mod RoundRobin
pub mod Serve
pub mod Phase
pub mod Lines
pub mod Held
pub mod Delivery
pub mod Fresh
pub mod Attempts
pub mod Failover
pub mod Stream
mod Tests
