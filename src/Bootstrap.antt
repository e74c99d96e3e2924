-- ===== src/Bootstrap.antt =====
-- src/core.c: the names of Mach services, and the calls by which clients use them.
pub mod Types
pub mod Services
pub mod Calls
pub mod Unique
pub mod Registered
pub mod Reach
pub mod Owned
pub mod Found
