-- ===== src/Http2.antt =====
-- The HTTP/2 connection: src/Http2RequestHandler.c and src/Http2ResponseHandler.c.
pub mod Frames
pub mod Flow
pub mod Streams
pub mod Dispatch
pub mod Reader
pub mod Requests
