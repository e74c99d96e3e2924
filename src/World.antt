-- ===== src/World.antt =====
-- src/core.c: all jobs and job managers together, and the operations that reach from one job into
-- others: dispatch, removal, reaping, shutdown. A pointer is the number of a structure; using one
-- that was freed is a fault.
pub mod Store
pub mod Walk
pub mod Release
pub mod Dispatch
pub mod Shutdown
pub mod Callbacks
pub mod Calendar
pub mod Tables
pub mod Guards
pub mod Removal
pub mod Reaping
pub mod Starting
pub mod Escalation
pub mod Agenda
