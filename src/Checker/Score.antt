-- ===== src/Checker/Score.antt =====
-- pkg/checker/checker.go: the quality score of a proxy.
pub mod Defs
pub mod Bounds
