-- ===== src/Pipeline/Ingest.antt =====
-- pkg/pipeline/pipeline.go: the jobs that the lines of an input lead to.
pub mod Defs
pub mod Spacing
