-- ===== src/Realtime.antt =====
-- internal/realtime: the hub that fans events out to the open streams.
pub mod Hub
pub mod Polling
pub mod Streams
