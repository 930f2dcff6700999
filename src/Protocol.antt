-- ===== src/Protocol.antt =====
-- pkg/protocol/protocol.go: verifying a proxy by talking to it.
pub mod Conn
pub mod Judge
pub mod Socks
pub mod Tunnel
pub mod Detect
mod Tests
