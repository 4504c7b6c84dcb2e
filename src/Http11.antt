-- ===== src/Http11.antt =====
-- src/Http11ResponseHandler.c: the reader of HTTP/1.1 responses.
pub mod Text
pub mod Reader
pub mod Head
pub mod Body
pub mod Response
