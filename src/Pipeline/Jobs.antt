-- ===== src/Pipeline/Jobs.antt =====
-- pkg/pipeline/pipeline.go: the jobs that the lines of the input stand for.
pub mod Defs
pub mod Forms
pub mod Readback
