-- ===== src/Storage/Exporter.antt =====
-- pkg/storage/exporter.go: the text files of live proxies. Paths are relative to the output
-- directory, and the disk is a map from paths to contents.
mod Defs
pub mod Lines
pub mod Appends
pub mod Contents
unfoldable pub use Defs.*
pub mod Setup
