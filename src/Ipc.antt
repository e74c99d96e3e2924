-- ===== src/Ipc.antt =====
-- src/ipc.c: what the socket server does to the descriptors inside messages.
pub mod Descriptors
pub mod Closed
pub mod Revoked
