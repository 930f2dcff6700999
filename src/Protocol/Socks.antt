-- ===== src/Protocol/Socks.antt =====
-- pkg/protocol/protocol.go: the SOCKS5 and SOCKS4 checks.
pub mod Defs
pub mod Reading
pub mod Exchange
pub mod Whole
pub mod Complete
pub mod Sound
mod Tests
