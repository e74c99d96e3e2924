-- ===== src/Arguments.antt =====
-- src/core.c: how the command of a job from mach_init is taken apart.
pub mod Scan
pub mod Fits
pub mod Copies
