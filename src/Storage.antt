-- ===== src/Storage.antt =====
-- pkg/storage: the proxy table, its background committer, and the files of live proxies.
mod Tests
pub mod Table
pub mod Setup
pub mod Committer
pub mod Exporter
