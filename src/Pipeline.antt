-- ===== src/Pipeline.antt =====
-- pkg/pipeline: ingestion, duplicate filter and worker pool.
mod Tests
pub mod Dedup
pub mod Jobs
pub mod Ingest
pub mod Process
pub mod Pool
pub mod Dashboard
