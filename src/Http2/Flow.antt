-- ===== src/Http2/Flow.antt =====
-- Flow-control credit and the control frame queue of the reader thread: replenishStreamWindow,
-- tuneConnectionWindow and the ledger of src/Http2ResponseHandler.c, queueControlFrame and
-- flushReaderWrites of src/Http2RequestHandler.c. Credit is `uint32_t`, with its wrap-around
-- written out; allocations succeed.
pub mod Queue
pub mod Ledger
pub mod Connection
pub mod Credit
use http_request_client.Prelude.{
  ℕ, zero, suc, ◌+◌, ◌-◌, ◌*◌, ◌%◌, ◌^◌, List, [], ◌∷◌, ◌++◌, Option, none, some, Bool, true, false,
  not, ◌&&◌, ◌||◌, ltb, leb, ◌==◌, if◌then◌else◌, length, drop_last,
}
use http_request_client.Http2.Frames.{
  Frame, fill_window_update_frame, fill_rst_stream_frame, settings_ack, ping_ack,
}

abbrev pub max_concurrent_streams_per_session : ℕ
max_concurrent_streams_per_session = 256

abbrev pub stream_window_update_threshold : ℕ
stream_window_update_threshold = 16384

abbrev pub connection_window_update_threshold : ℕ
connection_window_update_threshold = 65535

abbrev pub connection_window_max : ℕ
connection_window_max = 16777216

abbrev pub add_32 : ℕ → ℕ → ℕ
add_32 a b = (a + b) % 2 ^ 32

pub record PendingWindowUpdate : Type 0 where
  pub stream_id : ℕ
  pub credit : ℕ

-- The fields of a session that only the reader thread touches. The array of pending updates with
-- its count is one list, and so are the queued bytes with their size.
pub record Session : Type 0 where
  pub pending_conn_window : ℕ
  pub pending_stream_windows : List PendingWindowUpdate
  pub conn_window_flush_due : Bool
  pub conn_window_target : ℕ
  pub conn_window_since_growth : ℕ
  pub pending_wire : List ℕ
  pub pending_wire_capacity : ℕ

pub record StreamReading : Type 0 where
  pub consumed_bytes : ℕ
  pub cancel_stream_id : ℕ
  pub ended : Bool
  pub reset : Bool

-- `while (capacity < needed) { capacity *= 2; }`
unfoldable pub double_to : ℕ → ℕ → ℕ → ℕ
double_to zero needed capacity = capacity
double_to (suc rounds) needed capacity =
    let more = double_to rounds needed (capacity * 2) in
    if ltb capacity needed then more else capacity

unfoldable pub queue_control_frame : Session → List ℕ → Session
unfolding double_to
queue_control_frame session frame =
    let needed = length session.pending_wire + length frame in
    let capacity =
      if session.pending_wire_capacity == 0 then 256 else session.pending_wire_capacity in
    record session {
      pending_wire = session.pending_wire ++ frame;
      pending_wire_capacity =
          (if ltb session.pending_wire_capacity needed
            then double_to needed needed capacity
            else session.pending_wire_capacity);
    }

unfoldable pub queue_window_update_frame : Session → ℕ → ℕ → Session
unfolding queue_control_frame
queue_window_update_frame session stream_id increment =
    queue_control_frame session (fill_window_update_frame stream_id increment)

unfoldable pub queue_rst_stream_frame : Session → ℕ → Session
unfolding queue_control_frame
queue_rst_stream_frame session stream_id =
    queue_control_frame session (fill_rst_stream_frame stream_id)

-- The end of a read batch: owed connection credit joins the queue.
unfoldable pub queue_owed_credit : Session → Session
unfolding queue_window_update_frame
queue_owed_credit session =
    let cleared = record session { conn_window_flush_due = false } in
    if session.conn_window_flush_due
    then (if ltb 0 session.pending_conn_window
        then record (queue_window_update_frame cleared 0 session.pending_conn_window) {
          pending_conn_window = 0;
        }
        else cleared)
    else session

-- The new state and the bytes handed to the socket; a failed write is only logged.
unfoldable pub flush_reader_writes : Session → Session × List ℕ
unfolding queue_owed_credit
flush_reader_writes session =
    let owed = queue_owed_credit session in (record owed { pending_wire = [] }, owed.pending_wire)

unfoldable pub tune_connection_window : Session → ℕ → Session
tune_connection_window session consumed =
    let since = add_32 session.conn_window_since_growth consumed in
    let previous = session.conn_window_target in
    let doubled = previous * 2 % 2 ^ 32 in
    let target = if ltb doubled connection_window_max then doubled else connection_window_max in
    if leb connection_window_max previous
    then session
    else if ltb since previous
    then record session { conn_window_since_growth = since }
    else record session {
      conn_window_since_growth = since - previous;
      conn_window_target = target;
      pending_conn_window = add_32 session.pending_conn_window (target - previous);
      conn_window_flush_due = true;
    }

-- The credit of the first entry for a stream.
unfoldable pub find_pending_window : List PendingWindowUpdate → ℕ → Option ℕ
find_pending_window [] stream_id = none
find_pending_window (e ∷ es) stream_id =
    if e.stream_id == stream_id then some e.credit else find_pending_window es stream_id

-- `entry -> credit = credit`, for the entry that `findPendingWindow` returns.
unfoldable pub set_credit : List PendingWindowUpdate → ℕ → ℕ → List PendingWindowUpdate
set_credit [] stream_id credit = []
set_credit (e ∷ es) stream_id credit =
    if e.stream_id == stream_id
    then record e { credit = credit } ∷ es
    else e ∷ set_credit es stream_id credit

-- The second half of `addStreamWindowCredit`, for an entry that holds `held`.
unfoldable pub raise_credit : Session → ℕ → ℕ → ℕ → Session
unfolding set_credit queue_window_update_frame
raise_credit session stream_id held credit =
    let total = add_32 held credit in
    let set = λ (n : ℕ). record session {
      pending_stream_windows = set_credit session.pending_stream_windows stream_id n;
    } in
    if leb total stream_window_update_threshold
    then set total
    else queue_window_update_frame (set 0) stream_id total

unfoldable pub add_stream_window_credit : Session → ℕ → ℕ → Session
unfolding find_pending_window raise_credit
add_stream_window_credit session stream_id credit =
    let fresh = record session {
      pending_stream_windows =
          session.pending_stream_windows ++ (record { stream_id = stream_id; credit = 0 } ∷ []);
    } in
    elim (find_pending_window session.pending_stream_windows stream_id) [
      | none ↦
          if leb max_concurrent_streams_per_session (length session.pending_stream_windows)
          then session
          else raise_credit fresh stream_id 0 credit
      | some held ↦ raise_credit session stream_id held credit
    ]

abbrev pub last_or : PendingWindowUpdate → List PendingWindowUpdate → PendingWindowUpdate
last_or e [] = e
last_or e (f ∷ fs) = last_or f fs

-- The last entry takes the place of the first one for the stream.
unfoldable pub discard_entry : List PendingWindowUpdate → ℕ → List PendingWindowUpdate
discard_entry [] stream_id = []
discard_entry (e ∷ []) stream_id = if e.stream_id == stream_id then [] else e ∷ []
discard_entry (e ∷ f ∷ es) stream_id =
    if e.stream_id == stream_id
    then last_or f es ∷ drop_last (f ∷ es)
    else e ∷ discard_entry (f ∷ es) stream_id

unfoldable pub discard_pending_stream_window : Session → ℕ → Session
unfolding discard_entry
discard_pending_stream_window session stream_id = record session {
  pending_stream_windows = discard_entry session.pending_stream_windows stream_id;
}

unfoldable pub replenish_stream_window : Session → ℕ → StreamReading → Session
unfolding tune_connection_window add_stream_window_credit discard_pending_stream_window
replenish_stream_window session stream_id reading =
    let consumed = reading.consumed_bytes in
    let credited =
      if ltb 0 consumed
      then tune_connection_window
          (record session { pending_conn_window = add_32 session.pending_conn_window consumed })
          consumed
      else session in
    let stream_dead = reading.ended || (reading.reset || not (reading.cancel_stream_id == 0)) in
    let settled =
      if stream_dead
      then discard_pending_stream_window credited stream_id
      else if ltb 0 consumed
      then add_stream_window_credit credited stream_id consumed
      else credited in
    let flush_connection =
      reading.ended || leb connection_window_update_threshold settled.pending_conn_window in
    if flush_connection then record settled { conn_window_flush_due = true } else settled

-- What `readerDispatch` does behind a stream's frame, with what is left of its reading.
unfoldable pub settle_reading : Session → ℕ → StreamReading → Session
unfolding replenish_stream_window queue_rst_stream_frame
settle_reading session stream_id reading =
    let credited = replenish_stream_window session stream_id reading in
    if reading.cancel_stream_id == 0
    then credited
    else queue_rst_stream_frame credited reading.cancel_stream_id

-- The acknowledgements that `readerDispatch` queues behind a frame of the connection.
unfoldable pub acknowledge : Session → Frame → Session
unfolding queue_control_frame ping_ack
acknowledge session f =
    if f.frame_type == 4 && f.flags % 2 == 0
    then queue_control_frame session settings_ack
    else if f.frame_type == 6 && (f.flags % 2 == 0 && length f.payload == 8)
    then queue_control_frame session (ping_ack f.payload)
    else session
