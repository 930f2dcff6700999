-- ===== src/Daemon.antt =====
-- pkg/daemon/daemon.go: the recheck of the pool.
pub mod Defs
pub mod Loop
pub mod Query
pub mod Valid
pub mod Clean
pub mod Cycle
mod Tests
