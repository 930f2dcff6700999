-- ===== src/Commands/Scan.antt =====
-- cmd/check.go: a scan, from the results of the checks to the table after the end of the command.
pub mod Defs
mod Counted
pub mod Delivery
pub mod Files
mod Tests
