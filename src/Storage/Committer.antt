-- ===== src/Storage/Committer.antt =====
-- pkg/storage/sqlite.go: the queue between the workers and the table, over any database that
-- takes batches.
mod Defs
pub mod Conservation
pub mod Delivery
unfoldable pub use Defs.*
