-- ===== src/Sse.antt =====
-- The client of event streams, app/utils/sse-client.ts.
pub mod Blocks
pub mod Client
pub mod Chunks
pub mod Calls
mod Tests
