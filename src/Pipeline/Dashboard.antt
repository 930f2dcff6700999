-- ===== src/Pipeline/Dashboard.antt =====
-- pkg/pipeline/dashboard.go: what the terminal dashboard and the final report print.
pub mod Pieces
pub mod Live
pub mod Summary
pub mod Line
pub mod Top
mod Tests
