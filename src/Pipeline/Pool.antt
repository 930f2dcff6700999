-- ===== src/Pipeline/Pool.antt =====
-- pkg/pipeline/pipeline.go: the reader and the workers of a pipeline, as a step relation.
pub mod Defs
pub mod Invariant
pub mod Progress
pub mod Stop
pub mod Outcome
mod Tests
