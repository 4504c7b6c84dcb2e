-- ===== src/Response.antt =====
-- The response funnel that both protocols share: src/ResponseStream.c.
pub mod Stream
pub mod Callbacks
pub mod Stops
pub mod Collecting
