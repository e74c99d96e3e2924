-- ===== src/Data.antt =====
-- liblaunch/liblaunch.c: the typed values that launchd and its clients exchange.
pub mod Types
pub mod Scalars
pub mod Dict
pub mod Lookup
pub mod Bytes
pub mod Wire
pub mod Pieces
pub mod Blocks
pub mod RoundTrip
pub mod Totality
pub mod Copy
