-- ===== src/Import.antt =====
-- src/core.c: the import of jobs from property lists.
pub mod Types
pub mod Payload
pub mod Admit
pub mod Numbers
pub mod Ranges
pub mod Singles
pub mod Outcome
pub mod Named
pub mod Labels
pub mod Bulk
