-- ===== src/Checker.antt =====
-- pkg/checker/checker.go: the check of one address.
pub mod Defs
pub mod Sound
pub mod Score
mod Tests
