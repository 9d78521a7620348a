-- ===== src/Challenge.antt =====
-- Challenges to suspicious clients, internal/challenge/challenge.go.
pub mod Suspicion
pub mod Bounds
pub mod Answers
pub mod Store
pub mod Valid
pub mod Run
pub mod Verify
pub mod Pass
pub mod Gone
pub mod Guess
pub mod Solve
mod Tests
