-- ===== src/Streams.antt =====
-- frontend/lib/sse.ts: the two ways in which a page follows the server.
pub mod Polling
pub mod Events
