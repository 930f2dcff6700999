-- ===== src/Protocol/Detect.antt =====
-- pkg/protocol/protocol.go: which protocol a proxy speaks.
pub mod Defs
pub mod First
