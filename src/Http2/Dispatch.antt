-- ===== src/Http2/Dispatch.antt =====
-- What the frames of a connection do to its streams: handleStreamFrame, endStreamReading,
-- handleRST_STREAMFrame, handleGoAwayFrame, findStream and failAllStreams of
-- src/Http2ResponseHandler.c. Locks and the waking of waiting threads are left out.
pub mod Failing
use Prim.Native.String.{String}
use http_request_client.Prelude.{
  ℕ, List, [], ◌∷◌, ◌++◌, Option, none, some, Bool, true, false, not, ◌&&◌, ◌||◌, leb, ◌==◌,
  if◌then◌else◌, length,
}
use http_request_client.Errors.{
  Error, is_error, err_none, err_response_rst_stream_error, err_session_http_1_1_required,
  err_session_settings_timeout, err_session_go_away, err_response_reading_connection_error,
}
use http_request_client.Hpack.Table.{HpackContext}
use http_request_client.Hpack.Block.{ResponseHeader}
use http_request_client.Http2.Frames.{read_32}
use http_request_client.Http2.Flow.{StreamReading}
use http_request_client.Http2.Streams.{
  HeaderState, has_flag, handle_headers_frame, handle_continuation_frame,
}
use http_request_client.Response.Stream.{
  Decompressors, ResponseSink, Funnel, append_stream_payload, deliver_response_headers,
  complete_response_sink, take_response_cancellation,
}

-- The fields of a session that connection frames change.
pub record Connection : Type 0 where
  pub conn_error : Error
  pub going_away : Bool
  pub hpack_ctx : HpackContext

error_names : List (ℕ × String)
error_names =
    (0, "NO_ERROR")
    ∷ (1, "PROTOCOL_ERROR")
    ∷ (2, "INTERNAL_ERROR")
    ∷ (3, "FLOW_CONTROL_ERROR")
    ∷ (4, "SETTINGS_TIMEOUT")
    ∷ (5, "STREAM_CLOSED")
    ∷ (6, "FRAME_SIZE_ERROR")
    ∷ (7, "REFUSED_STREAM")
    ∷ (8, "CANCEL")
    ∷ (9, "COMPRESSION_ERROR")
    ∷ (10, "CONNECT_ERROR")
    ∷ (11, "ENHANCE_YOUR_CALM")
    ∷ (12, "INADEQUATE_SECURITY")
    ∷ (13, "HTTP_1_1_REQUIRED")
    ∷ []

find_name : List (ℕ × String) → ℕ → String
find_name [] code = "STREAM_UNKNOWN_ERROR"
find_name ((c, name) ∷ names) code = if code == c then name else find_name names code

unfoldable pub get_error_name : ℕ → String
unfolding error_names find_name
get_error_name code = find_name error_names code

unfoldable pub handle_go_away_frame : Connection → List ℕ → Connection
handle_go_away_frame conn payload =
    let error_code = read_32 payload 4 in
    if leb 8 (length payload)
    then record conn {
      conn_error =
          (if error_code == 4
            then err_session_settings_timeout
            else if error_code == 13
            then err_session_http_1_1_required
            else err_session_go_away);
      going_away = true;
    }
    else conn

module _ (d : Decompressors) where
  pub record Http2Stream : Type 0 where
    pub stream_id : ℕ
    pub is_ended : Bool
    pub funnel : Funnel d
    pub header_block : List ℕ
    pub awaiting_continuation : Bool

  abbrev pub stream_error : Http2Stream → Error
  stream_error s = s.funnel.stream.error

  abbrev pub with_error : Http2Stream → Error → Http2Stream
  with_error s error = record s {
    funnel = record s.funnel { stream = record s.funnel.stream { error = error } };
  }

  abbrev header_state : Http2Stream → HeaderState
  header_state s = record {
    headers = some s.funnel.stream.headers;
    header_block = s.header_block;
    awaiting_continuation = s.awaiting_continuation;
    error = s.funnel.stream.error;
  }

  abbrev headers_of : Option (List ResponseHeader) → List ResponseHeader
  headers_of none = []
  headers_of (some hs) = hs

  abbrev with_header_state : Http2Stream → HeaderState → Http2Stream
  with_header_state s h = record s {
    funnel = record s.funnel {
      stream = record s.funnel.stream { headers = headers_of h.headers; error = h.error };
    };
    header_block = h.header_block;
    awaiting_continuation = h.awaiting_continuation;
  }

  -- `memset(&scratch, 0, sizeof(scratch))`
  abbrev scratch : HeaderState
  scratch = record {
    headers = none;
    header_block = [];
    awaiting_continuation = false;
    error = err_none;
  }

  unfoldable pub handle_rst_stream_frame :
      Connection → Http2Stream → List ℕ → Connection × Http2Stream
  unfolding get_error_name
  handle_rst_stream_frame conn s payload =
      let error_code = read_32 payload 0 in
      if not (length payload == 4)
      then (
        conn,
        with_error s
            (record err_response_rst_stream_error { msg = some "Invalid RST_STREAM frame length" }),
      )
      else if error_code == 13
      then (
        record conn { conn_error = err_session_http_1_1_required; going_away = true },
        with_error s err_session_http_1_1_required,
      )
      else (
        conn,
        with_error s
            (record err_response_rst_stream_error { msg = some (get_error_name error_code) }),
      )

  -- The `switch` of `handleStreamFrame`, for a stream.
  unfoldable pub handle_frame_type :
      Connection → Http2Stream → List ℕ → ℕ → ℕ → Connection × Http2Stream
  unfolding handle_rst_stream_frame handle_go_away_frame
  handle_frame_type conn s payload frame_type flags =
      let (headers, ctx) = handle_headers_frame (header_state s) payload flags conn.hpack_ctx in
      let (continued, ctx') =
        handle_continuation_frame (header_state s) payload flags conn.hpack_ctx in
      let (conn', reset) = handle_rst_stream_frame conn s payload in
      if frame_type == 0
      then (conn, record s { funnel = (append_stream_payload d s.funnel payload).1 })
      else if frame_type == 1
      then (record conn { hpack_ctx = ctx }, with_header_state s headers)
      else if frame_type == 9
      then (record conn { hpack_ctx = ctx' }, with_header_state s continued)
      else if frame_type == 3
      then (conn', record reset { is_ended = true })
      else if frame_type == 7
      then (handle_go_away_frame conn payload, s)
      else (conn, s)

  unfoldable pub handle_stream_frame :
      Connection → Option Http2Stream → List ℕ → ℕ → ℕ → Connection × Option Http2Stream
  unfolding handle_frame_type handle_go_away_frame
  handle_stream_frame conn none payload frame_type flags =
      let (unused, ctx) = handle_headers_frame scratch payload flags conn.hpack_ctx in
      if frame_type == 1
      then (record conn { hpack_ctx = ctx }, none)
      else if frame_type == 7
      then (handle_go_away_frame conn payload, none)
      else (conn, none)
  handle_stream_frame conn (some s) payload frame_type flags =
      let (conn', handled) = handle_frame_type conn s payload frame_type flags in
      let has_headers = frame_type == 1 || frame_type == 9 in
      let complete = has_headers && (has_flag flags 4 && not (is_error (stream_error handled))) in
      let told =
        if complete
        then record handled { funnel = deliver_response_headers d handled.funnel }
        else handled in
      let ends = (frame_type == 0 || has_headers) && has_flag flags 1 in
      (conn', some (if ends then record told { is_ended = true } else told))

  abbrev pub has_sink : Option (ResponseSink d) → Bool
  has_sink none = false
  has_sink (some sink) = true

  unfoldable pub end_stream_reading : Http2Stream → ℕ → ℕ → Http2Stream × StreamReading
  end_stream_reading s frame_type size =
      let reset = frame_type == 3 in
      let done =
        if s.is_ended then record s { funnel = complete_response_sink d s.funnel } else s in
      let (cancelled, taken) = take_response_cancellation d done.funnel in
      let stopped = record done { funnel = taken } in
      let torn =
        if s.is_ended
        then stopped
        else record stopped { is_ended = true; funnel = complete_response_sink d taken } in
      let consumed = if frame_type == 0 then size else 0 in
      if not (has_sink done.funnel.sink)
      then (
        done,
        record { consumed_bytes = 0; cancel_stream_id = 0; ended = s.is_ended; reset = reset },
      )
      else if not cancelled
      then (
        done,
        record {
          consumed_bytes = consumed;
          cancel_stream_id = 0;
          ended = s.is_ended;
          reset = reset;
        },
      )
      else (
        torn,
        record {
          consumed_bytes = consumed;
          cancel_stream_id = s.stream_id;
          ended = s.is_ended;
          reset = reset;
        },
      )

  -- The first slot of the registry with the stream; a free slot is none.
  unfoldable pub find_stream : List (Option Http2Stream) → ℕ → Option Http2Stream
  find_stream [] stream_id = none
  find_stream (none ∷ slots) stream_id = find_stream slots stream_id
  find_stream (some s ∷ slots) stream_id =
      if s.stream_id == stream_id then some s else find_stream slots stream_id

  abbrev pub is_empty : List ResponseHeader → Bool
  is_empty [] = true
  is_empty (h ∷ hs) = false

  -- The body of the loop, for one stream.
  unfoldable pub fail_stream : Connection → Bool → Http2Stream → Http2Stream
  fail_stream conn only_pending s =
      let error =
        if is_error conn.conn_error
        then conn.conn_error
        else err_response_reading_connection_error in
      let failed = record (with_error s error) { is_ended = true } in
      if not s.is_ended && (not only_pending || is_empty s.funnel.stream.headers)
      then record failed { funnel = complete_response_sink d failed.funnel }
      else s

  unfoldable pub fail_all_streams :
      Connection → Bool → List (Option Http2Stream) → List (Option Http2Stream)
  unfolding fail_stream
  fail_all_streams conn only_pending [] = []
  fail_all_streams conn only_pending (none ∷ slots) =
      none ∷ fail_all_streams conn only_pending slots
  fail_all_streams conn only_pending (some s ∷ slots) =
      some (fail_stream conn only_pending s) ∷ fail_all_streams conn only_pending slots
