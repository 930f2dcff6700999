-- ===== src/Server.antt =====
-- pkg/server/server.go and pkg/judge/server.go: the HTTP handlers.
pub mod Response
pub mod Pool
pub mod Check
pub mod Export
pub mod Metrics
pub mod Echo
pub mod Stream
pub mod Routes
mod Tests
