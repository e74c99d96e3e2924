-- ===== src/Calendar.antt =====
-- src/core.c: StartCalendarInterval, the search for the next time and the list of intervals.
pub mod Types
pub mod Cron
pub mod Matching
pub mod Request
pub mod Accepted
