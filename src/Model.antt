-- ===== src/Model.antt =====
-- pkg/model: the data that the components share.
mod Tests
pub mod Proxy
pub mod Config
pub mod Stats
