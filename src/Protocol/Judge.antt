-- ===== src/Protocol/Judge.antt =====
-- pkg/protocol/protocol.go: the filter on a judge's response.
pub mod Defs
pub mod Echo
