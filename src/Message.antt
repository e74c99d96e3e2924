-- ===== src/Message.antt =====
-- liblaunch/liblaunch.c: the connections over which launchd and its clients exchange messages.
pub mod Types
pub mod Send
pub mod Sending
pub mod Recv
pub mod Frames
pub mod Delivery
pub mod Cuts
pub mod Chunks
pub mod EndToEnd
