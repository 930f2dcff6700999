-- ===== src/Judge.antt =====
-- pkg/judge/judge.go: the choice of a judge and the level of anonymity.
pub mod Defs
pub mod Pick
pub mod Level
pub mod Health
pub mod Rounds
mod Tests
