-- ===== src/Model/Stats.antt =====
-- pkg/model/stats.go: the counters of a scan and the history of its last 120 seconds.
-- A counter is the bit pattern of an int64, so adding one wraps around at 2 ^ 64.
mod Defs
pub mod Counts
pub mod History
unfoldable pub use Defs.*
