-- ===== src/Examples.antt =====
-- The theorems at concrete jobs and values, and the values.
mod Fixtures
mod Arguments
mod Bootstrap
mod Calendar
mod Ipc
mod Jobs
mod Reaping
mod Tables
mod Wire
mod Import
mod Messages
mod Starter
