-- ===== src/Lib.antt =====
-- A model of the HTTP client of this repository: how it compresses and decompresses HTTP/2 headers,
-- reads frames from a connection, returns flow-control credit, and hands a response to its caller.
--
-- The parts and their files (paths of C code from the repository's root):
--   * Errors: the error values of src/utils/Error.c.
--   * Hpack.Integer, Hpack.Huffman, Hpack.Strings: src/CompressHandler.c, from the prefixed integers
--     (hpackEncodeInteger, hpackDecodeInteger) and the Huffman code (hpackHuffmanEncode,
--     buildHuffmanTree, huffmanDecodeTree) to strings (writeHuffmanValue, hpackDecodeString).
--   * Hpack.Table, Hpack.Block: the HPACK half of src/Http2ResponseHandler.c: the static and dynamic
--     tables with their eviction, and decodeHeadersFrame, which decodes a whole header block.
--   * Http2.Frames: the frame parser of readerLoop (src/Http2ResponseHandler.c) and the frames that
--     src/Http2RequestHandler.c writes.
--   * Http2.Flow: the reader thread's flow control: replenishStreamWindow, tuneConnectionWindow, the
--     ledger of stream credit, and the queue of control frames with its flush at a batch's end.
--   * Http2.Streams, Http2.Dispatch: handleStreamFrame and its handlers in
--     src/Http2ResponseHandler.c: header blocks with padding, priority and CONTINUATION frames, bodies,
--     RST_STREAM and GOAWAY, the end of a stream's reading, and failAllStreams.
--   * Http2.Reader: readerDispatch and, for a read that got bytes, the body of readerLoop, over the
--     parts above.
--   * Http2.Requests: the header block that src/Http2RequestHandler.c writes for a request
--     (hpackHeaders, hpackPseudoHeaders, the loop of buildHttp2HeadersFrame), with the sizes of the
--     buffers that these write to: a write past one of them is a result of its own. Its children
--     hold its proofs.
--   * Response.Stream: src/ResponseStream.c, the funnel behind which a response is either delivered
--     to callbacks or collected.
--   * Http11.Reader, Http11.Head, Http11.Body, Http11.Response: src/Http11ResponseHandler.c: the
--     buffered reader over what the network answers, the status line and header fields, the three
--     framings of a body, and receiveHttp11Response. Http11.Text has the C string functions it uses.
--   * Request.Order, Request.Cookies: reorderHeadersByOrderKey and processCookies of src/Basket.c.
--   * Tests: the theorems on concrete inputs.
-- The reader (Http2.Reader) splits the bytes into frames (Http2.Frames); Http2.Dispatch takes
-- HEADERS frames to Hpack.Block and DATA frames to Response.Stream, and what is consumed comes back
-- as credit in Http2.Flow.
--
-- How the code is modelled: a buffer with its length is a list of bytes, a position or a structure
-- that a function changes through a pointer goes in and comes out, and `uint32_t` arithmetic has its
-- wrap-around written out where credit is added. Loops run on fuel: encode_rest has the ten groups
-- that a 64-bit value has, decode_rest the rounds that its shift limit allows, the header block and
-- frame loops one round for each byte (each round takes at least one), eviction one round for each
-- entry, and the doubling of a capacity one round for each byte needed. The HTTP/1.1 reader takes what
-- the network answers as a list and has two rounds for each answer; its loops over lines have one
-- round for each byte that can still come, and so have the loops over cookies for theirs. The loop
-- over a cookie's value does not end for a maximum of 0, and then marks its result.
--
-- What is not modelled: failing allocations, logging, the clock, TLS and sockets, and the content
-- decoders, which stand behind an interface (Response.Stream.Decompressors). Locks and threads, the
-- rest of how requests are written, sessions, and the parsers of URLs and of the JSON of a request
-- have no model.
pub mod Prelude
pub mod Errors
pub mod Hpack
pub mod Http11
pub mod Http2
pub mod Response
pub mod Request
pub mod Tests
