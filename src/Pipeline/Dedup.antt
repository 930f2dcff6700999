-- ===== src/Pipeline/Dedup.antt =====
-- pkg/pipeline/dedup.go: the sharded duplicate filter. The clock is an argument; times and the
-- window are in nanoseconds.
mod Defs
pub mod Shards
pub mod Window
unfoldable pub use Defs.*
