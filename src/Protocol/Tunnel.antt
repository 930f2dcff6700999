-- ===== src/Protocol/Tunnel.antt =====
-- pkg/protocol/protocol.go: the checks of an HTTP proxy and of an HTTPS tunnel.
pub mod Defs
pub mod Answer
