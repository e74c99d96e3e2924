-- ===== src/Job.antt =====
-- src/core.c: a job and the operations of its life.
pub mod Types
pub mod Status
pub mod Keep
pub mod Signals
pub mod Watch
pub mod Start
pub mod Reap
pub mod Decisions
pub mod Respawn
pub mod Stopping
pub mod Tally
pub mod Accounts
