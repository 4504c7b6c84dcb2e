-- ===== src/Hpack.antt =====
-- Header compression: src/CompressHandler.c (integers, Huffman code, strings) and the HPACK half of
-- src/Http2ResponseHandler.c (tables, header blocks).
pub mod Integer
pub mod Huffman
pub mod Strings
pub mod Table
pub mod Block
