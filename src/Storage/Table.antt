-- ===== src/Storage/Table.antt =====
-- pkg/storage/sqlite.go: the table `proxies` and the statements that the program runs on it.
mod Defs
mod Query
pub mod Countries
pub mod Upsert
pub mod Purge
pub mod Batch
pub mod Search
unfoldable pub use Defs.*
unfoldable pub use Query.*
