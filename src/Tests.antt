-- ===== src/Tests.antt =====
-- Concrete runs of the theorems.
pub mod Hpack
pub mod Http2
pub mod Http11
pub mod Response
pub mod Request
pub mod Streams
pub mod Requests
pub mod Reader
