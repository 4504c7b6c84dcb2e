-- ===== src/Http2/Reader.antt =====
-- The reader thread's handling of frames: readerDispatch and, for one `SSL_read` that got bytes, the
-- body of readerLoop in src/Http2ResponseHandler.c. Locks and the waking of threads are left out.
pub mod Credit
use http_request_client.Prelude.{
  ℕ, List, [], ◌∷◌, Option, none, some, Bool, true, false, ◌||◌, ◌==◌, if◌then◌else◌, length,
}
use http_request_client.Http2.Frames.{Frame, read_bytes}
use http_request_client.Http2.Flow.{
  Session, StreamReading, settle_reading, acknowledge, flush_reader_writes,
}
use http_request_client.Http2.Dispatch.{
  Connection, Http2Stream, handle_stream_frame, end_stream_reading, find_stream, fail_all_streams,
}
use http_request_client.Response.Stream.{Decompressors}

abbrev pub is_stream_frame : ℕ → Bool
is_stream_frame t = t == 0 || t == 1 || t == 3 || t == 9

module _ (d : Decompressors) where
  -- A session: what only the reader thread touches, what connection frames change, and the streams.
  pub record ReaderSession : Type 0 where
    pub session : Session
    pub conn : Connection
    pub slots : List (Option (Http2Stream d))

  -- A stream is changed in its slot.
  unfoldable pub put_stream :
      List (Option (Http2Stream d)) → ℕ → Http2Stream d → List (Option (Http2Stream d))
  put_stream [] stream_id s = []
  put_stream (none ∷ slots) stream_id s = none ∷ put_stream slots stream_id s
  put_stream (some old ∷ slots) stream_id s =
      if old.stream_id == stream_id then some s ∷ slots else some old ∷ put_stream slots stream_id s

  abbrev pub stream_or : Http2Stream d → Option (Http2Stream d) → Http2Stream d
  stream_or s none = s
  stream_or s (some t) = t

  -- The stream's frame is handled and its reading ended, while the stream is locked.
  unfoldable pub read_stream_frame :
      Connection → Http2Stream d → Frame → Connection × (Http2Stream d × StreamReading)
  read_stream_frame conn s f =
      let (conn', handled) = handle_stream_frame d conn (some s) f.payload f.frame_type f.flags in
      (conn', end_stream_reading d (stream_or s handled) f.frame_type (length f.payload))

  unfoldable pub reader_dispatch : ReaderSession → Frame → ReaderSession
  unfolding read_stream_frame settle_reading acknowledge find_stream put_stream fail_all_streams
  reader_dispatch r f =
      let unfound = handle_stream_frame d r.conn none f.payload f.frame_type f.flags in
      let found : Http2Stream d → ReaderSession = λ s.
        let (conn', (ended, reading)) = read_stream_frame r.conn s f in
        record {
          session = settle_reading r.session f.stream_id reading;
          conn = conn';
          slots = put_stream r.slots f.stream_id ended;
        } in
      if is_stream_frame f.frame_type
      then elim (find_stream d r.slots f.stream_id) [
        | none ↦ record r { conn = unfound.0 }
        | some s ↦ found s
      ]
      else record {
        session = acknowledge r.session f;
        conn = unfound.0;
        slots = if f.frame_type == 7 then fail_all_streams d unfound.0 true r.slots else r.slots;
      }

  unfoldable pub dispatch_all : ReaderSession → List Frame → ReaderSession
  unfolding reader_dispatch
  dispatch_all r [] = r
  dispatch_all r (f ∷ fs) = dispatch_all (reader_dispatch r f) fs

  -- One read: the bytes join the accumulated ones, the complete frames are dispatched, and the batch
  -- ends. The result is the session, the bytes that are written, and what has accumulated.
  unfoldable pub read_batch : ReaderSession → List ℕ → List ℕ → ReaderSession × (List ℕ × List ℕ)
  unfolding dispatch_all flush_reader_writes
  read_batch r acc buffer =
      let (frames, rest) = read_bytes acc buffer in
      let dispatched = dispatch_all r frames in
      let (session, wire) = flush_reader_writes dispatched.session in
      (record dispatched { session = session }, (wire, rest))
