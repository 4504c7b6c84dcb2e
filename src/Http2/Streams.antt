-- ===== src/Http2/Streams.antt =====
-- The frames of a stream and of the connection, as handleStreamFrame of src/Http2ResponseHandler.c
-- handles them: header blocks with padding, priority and CONTINUATION frames, bodies, resets and
-- GOAWAY. Allocations succeed; frames that are only logged (SETTINGS, WINDOW_UPDATE) change nothing.
pub mod Blocks
use Prim.Native.String.{String}
use http_request_client.Prelude.{
  ℕ, zero, suc, ◌+◌, ◌-◌, ◌/◌, ◌%◌, List, [], ◌∷◌, ◌++◌, Option, none, some, Bool, true, false, not,
  ◌&&◌, ◌||◌, ltb, leb, ◌==◌, if◌then◌else◌, length, get_or, take, drop,
}
use http_request_client.Errors.{
  Error, is_error, err_response_decoding_headers_frame_failed, err_response_rst_stream_error,
  err_session_http_1_1_required, err_session_settings_timeout, err_session_go_away,
  err_response_reading_connection_error,
}
use http_request_client.Hpack.Table.{HpackContext}
use http_request_client.Hpack.Block.{ResponseHeader, decode_headers_frame}
use http_request_client.Http2.Frames.{read_32}
use http_request_client.Response.Stream.{
  Decompressors, Funnel, append_stream_payload, deliver_response_headers, complete_response_sink,
  take_response_cancellation,
}

abbrev pub has_flag : ℕ → ℕ → Bool
has_flag flags weight = flags / weight % 2 == 1

-- The header fields of a stream: `headers` is missing for the scratch stream.
pub record HeaderState : Type 0 where
  pub headers : Option (List ResponseHeader)
  pub header_block : List ℕ
  pub awaiting_continuation : Bool
  pub error : Error

-- The header block fragment of a HEADERS frame, without padding and priority; none if they do not
-- fit the frame.
unfoldable pub strip_fragment : Bool → Bool → List ℕ → Option (List ℕ)
strip_fragment padded priority payload =
    let pad_length = if padded then get_or payload 0 0 else 0 in
    let unpadded = if padded then drop 1 payload else payload in
    let rest = if priority then drop 5 unpadded else unpadded in
    if padded && ltb (length payload) 1
    then none
    else if priority && ltb (length unpadded) 5
    then none
    else if ltb (length rest) pad_length
    then none
    else some (take (length rest - pad_length) rest)

unfoldable pub header_fragment : ℕ → List ℕ → Option (List ℕ)
unfolding strip_fragment
header_fragment flags payload = strip_fragment (has_flag flags 8) (has_flag flags 32) payload

-- `decodeHeadersFrame`, with the stream's fields and the connection's context.
unfoldable pub decode_block : HeaderState → List ℕ → HpackContext → HeaderState × HpackContext
decode_block s block ctx =
    let decoded = decode_headers_frame s.headers s.error block ctx in
    (record s { headers = decoded.headers; error = decoded.error }, decoded.ctx)

unfoldable pub handle_headers_frame :
    HeaderState → List ℕ → ℕ → HpackContext → HeaderState × HpackContext
unfolding header_fragment decode_block
handle_headers_frame s payload flags ctx = elim (header_fragment flags payload) [
  | none ↦ (record s { error = err_response_decoding_headers_frame_failed }, ctx)
  | some fragment ↦
      if has_flag flags 4
      then decode_block s fragment ctx
      else (record s { header_block = fragment; awaiting_continuation = true }, ctx)
]

unfoldable pub handle_continuation_frame :
    HeaderState → List ℕ → ℕ → HpackContext → HeaderState × HpackContext
unfolding decode_block
handle_continuation_frame s payload flags ctx =
    let block = s.header_block ++ payload in
    let ended = record s { header_block = []; awaiting_continuation = false } in
    if not s.awaiting_continuation
    then (s, ctx)
    else if not (has_flag flags 4)
    then (record s { header_block = block }, ctx)
    else if is_error s.error
    then (ended, ctx)
    else decode_block ended block ctx
