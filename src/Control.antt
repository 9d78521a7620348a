-- ===== src/Control.antt =====
-- How main.go turns what the control plane and the configuration say into routes and rules.
pub mod Targets
pub mod Upstreams
pub mod Tests
