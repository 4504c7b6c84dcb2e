-- ===== src/Http2/Reader/Credit.antt =====
-- The connection's credit over one read of readerLoop, from the bytes on.
use http_request_client.Prelude.{
  ℕ, zero, suc, ◌+◌, ◌*◌, ◌^◌, ◌≤◌, ◌<◌, ◌≡◌, inl, inr, List, [], ◌∷◌, ◌++◌, none, some, Bool, true,
  false, not, ◌==◌, arith, ltb, leb, if◌then◌else◌, length, length-append, length-take, length-drop,
  take, drop, Bool-cases, Option-cases, leb→le,
}
use http_request_client.Http2.Frames.{
  Frame, bytes_31, fill_window_update_frame, read_24, read_31, read_bytes, split_frames,
}
use http_request_client.Http2.Flow.{
  Session, StreamReading, connection_window_max, flush_reader_writes,
}
use http_request_client.Http2.Flow.Queue.{granted, flush_reader_writes_lem}
use http_request_client.Http2.Flow.Connection.{
  Conserves, IsOwing, acknowledge-IsOwing, acknowledge-SameConnection, same-Conserves,
  settle_reading-Conserves, unchanged,
}
use http_request_client.Http2.Dispatch.{Http2Stream, end_stream_reading, find_stream, has_sink}
use http_request_client.Http2.Reader.{
  ReaderSession, dispatch_all, is_stream_frame, read_batch, read_stream_frame, reader_dispatch,
}
use http_request_client.Response.Stream.{
  Decompressors, complete_response_sink, take_response_cancellation,
}

-- The payload bytes of frames.
payloads : List Frame → ℕ
payloads [] = 0
payloads (f ∷ fs) = length f.payload + payloads fs

pick-payloads :
    (test : Bool) (a b : List Frame) (p q : List ℕ) (n : ℕ)
    → payloads a ≤ n
    → payloads b ≤ n
    → payloads (if test then (let x : List Frame × List ℕ = (a, p) in x) else (b, q)).0 ≤ n
pick-payloads true a b p q n h k = h
pick-payloads false a b p q n h k = k

split_payloads : (fuel : ℕ) (acc : List ℕ) → payloads (split_frames fuel acc).0 ≤ length acc
unfolding split_frames payloads
split_payloads zero acc = omega arith
split_payloads (suc fuel) acc =
    let size = read_24 acc 0 in
    let rest = split_payloads fuel (drop (9 + size) acc) in
    elim (Bool-cases (ltb (length acc) (9 + size))) [
      | inl short ↦ rw short (
          pick-payloads (ltb (length acc) 9) [] [] acc acc (length acc) (omega arith) (omega arith))
      | inr complete ↦
          let there : 9 + size ≤ length acc = ground arith in
          let taken : length (take size (drop 9 acc)) ≡ size =
            length-take size (drop 9 acc) (omega (arith, there, length-drop 9 acc)) in
          rw complete (
            pick-payloads (ltb (length acc) 9) [] _ acc _ (length acc) (omega arith)
              (omega (arith, rest, taken, there, length-drop (9 + size) acc)))
    ]

module _ (d : Decompressors) where
  -- A reading gives back credit for at most the bytes of its frame.
  record IsWithin (size : ℕ) (result : Http2Stream d × StreamReading) : Type 0 where
    holds : result.1.consumed_bytes ≤ size

  pick-IsWithin :
      {size : ℕ} {a b : Http2Stream d × StreamReading} (test : Bool)
      → IsWithin size a
      → IsWithin size b
      → IsWithin size (if test then a else b)
  pick-IsWithin true p q = p
  pick-IsWithin false p q = q

  within :
      (s : Http2Stream d) (consumed id : ℕ) (ended reset : Bool) (size : ℕ)
      → consumed ≤ size
      → IsWithin size (
        s,
        record { consumed_bytes = consumed; cancel_stream_id = id; ended = ended; reset = reset },
      )
  within s consumed id ended reset size h = record { holds = h }

  at_most : (test : Bool) (size : ℕ) → (if test then size else 0) ≤ size
  at_most true size = omega arith
  at_most false size = omega arith

  reading-IsWithin :
      (s : Http2Stream d) (t size : ℕ) → IsWithin size (end_stream_reading d s t size)
  unfolding end_stream_reading
  reading-IsWithin s t size =
      let done =
        if s.is_ended then record s { funnel = complete_response_sink d s.funnel } else s in
      let nothing = within done 0 0 s.is_ended (t == 3) size (omega arith) in
      let consumed = if t == 0 then size else 0 in
      let kept = within done consumed 0 s.is_ended (t == 3) size (at_most (t == 0) size) in
      let torn = within _ consumed s.stream_id s.is_ended (t == 3) size (at_most (t == 0) size) in
      pick-IsWithin (not (has_sink d done.funnel.sink)) nothing
        (pick-IsWithin (not (take_response_cancellation d done.funnel).0) kept torn)

  -- The bytes that a frame gives back credit for, and those of a batch.
  abbrev pub consumed_by : ReaderSession d → Frame → ℕ
  consumed_by r f =
      if is_stream_frame f.frame_type
      then elim (find_stream d r.slots f.stream_id) [
        | none ↦ 0
        | some s ↦ (read_stream_frame d r.conn s f).1.1.consumed_bytes
      ]
      else 0

  abbrev pub consumed_by_all : ReaderSession d → List Frame → ℕ
  consumed_by_all r [] = 0
  consumed_by_all r (f ∷ fs) = consumed_by r f + consumed_by_all (reader_dispatch d r f) fs

  consumed_bound : (r : ReaderSession d) (f : Frame) → consumed_by r f ≤ length f.payload
  unfolding read_stream_frame
  consumed_bound r f = elim (Bool-cases (is_stream_frame f.frame_type)) [
    | inr other ↦ rw other (omega arith)
    | inl scoped ↦ elim (Option-cases (find_stream d r.slots f.stream_id)) [
      | inl e ↦ rw (scoped, e) (omega arith)
      | inr (s, e) ↦ rw (scoped, e) (reading-IsWithin _ f.frame_type (length f.payload)).holds
    ]
  ]

  consumed_all_bound : (fs : List Frame) (r : ReaderSession d) → consumed_by_all r fs ≤ payloads fs
  unfolding payloads
  consumed_all_bound [] r = omega arith
  consumed_all_bound (f ∷ fs) r =
      omega (arith, consumed_bound r f, consumed_all_bound fs (reader_dispatch d r f))

  -- What one frame, or several, do to the credit.
  record IsStep (n : ℕ) (s t : Session) : Type 0 where
    conserves : Conserves n s t
    owing : IsOwing t

  dispatch-IsStep :
      (r : ReaderSession d) (f : Frame)
      → IsOwing r.session
      → r.session.conn_window_target ≤ connection_window_max
      → r.session.pending_conn_window + consumed_by r f + connection_window_max < 2 ^ 32
      → IsStep (consumed_by r f) r.session (reader_dispatch d r f).session
  unfolding reader_dispatch
  dispatch-IsStep r f o h k = elim (Bool-cases (is_stream_frame f.frame_type)) [
    | inr other ↦
        rw (reader_dispatch, other)
          (record {
            conserves =
                same-Conserves 0 r.session r.session _ (unchanged r.session h)
                  (acknowledge-SameConnection r.session f);
            owing = acknowledge-IsOwing r.session f o;
          })
    | inl scoped ↦ elim (Option-cases (find_stream d r.slots f.stream_id)) [
      | inl e ↦
          rw (reader_dispatch, scoped, e) (record { conserves = unchanged r.session h; owing = o })
      | inr (s, e) ↦
          let room = rw (scoped, e) at k in
          let step =
            settle_reading-Conserves r.session f.stream_id (read_stream_frame d r.conn s f).1.1 h
              room in
          rw (reader_dispatch, scoped, e) (record { conserves = step.0; owing = step.1 })
    ]
  ]

  dispatch_all-IsStep :
      (fs : List Frame) (r : ReaderSession d)
      → IsOwing r.session
      → r.session.conn_window_target ≤ connection_window_max
      → r.session.pending_conn_window + consumed_by_all r fs + 2 * connection_window_max
        < 2 ^ 32 + r.session.conn_window_target
      → IsStep (consumed_by_all r fs) r.session (dispatch_all d r fs).session
  unfolding dispatch_all
  dispatch_all-IsStep [] r o h k = record { conserves = unchanged r.session h; owing = o }
  dispatch_all-IsStep (f ∷ fs) r o h k =
      let one = dispatch-IsStep r f o h (omega arith) in
      let c = one.conserves in
      let more =
        dispatch_all-IsStep fs (reader_dispatch d r f) one.owing c.limit
          (omega (arith, c.owed, c.grows)) in
      let e = more.conserves in
      record {
        conserves = record {
          owed = omega (arith, c.owed, e.owed);
          grows = omega (arith, c.grows, e.grows);
          limit = e.limit;
        };
        owing = more.owing;
      }

  -- The connection between two reads.
  pub record IsSettled (s : Session) : Type 0 where
    pub small : s.pending_conn_window < 65535
    pub window : s.conn_window_target ≤ connection_window_max
    pub sent : s.pending_wire ≡ []

  left_small : (t : Session) (p : ℕ) → IsOwing t → granted t + p ≡ t.pending_conn_window → p < 65535
  left_small t p o rest = elim (Bool-cases t.conn_window_flush_due) [
    | inl due ↦ let all = rw due at rest in omega arith
    | inr idle ↦
        let all = rw idle at rest in
        elim (Bool-cases (leb 65535 t.pending_conn_window)) [
          | inl large ↦ let due = o (leb→le 65535 t.pending_conn_window large) in absurd cc
          | inr few_left ↦ ground arith
        ]
  ]

  -- The session before a read's batch end.
  abbrev pub dispatched : ReaderSession d → List ℕ → List ℕ → Session
  dispatched r acc buffer = (dispatch_all d r (read_bytes acc buffer).0).session

  -- A connection that owes less than 65535 bytes, has nothing queued and a window of at most 16 MiB
  -- is so again after a read, whatever bytes arrive, if less than 2 ^ 30 are buffered; and its
  -- credit is conserved: what the batch end grants and what stays owed are what was owed, what the
  -- frames consumed, and what the window grew by. All that the frames queued is written, and the
  -- grant, if there is one, as the last frame, whose 31 bits hold it.
  pub read_batch-conserves :
      (r : ReaderSession d) (acc buffer : List ℕ)
      → IsSettled r.session
      → length acc + length buffer < 2 ^ 30
      → (granted (dispatched r acc buffer)
            + (read_batch d r acc buffer).0.session.pending_conn_window
            + r.session.conn_window_target
          ≡ r.session.pending_conn_window
            + consumed_by_all r (read_bytes acc buffer).0
            + (read_batch d r acc buffer).0.session.conn_window_target)
        × ((read_batch d r acc buffer).1.0
            ≡ (dispatched r acc buffer).pending_wire
              ++ (if ltb 0 (granted (dispatched r acc buffer))
                  then fill_window_update_frame 0 (granted (dispatched r acc buffer))
                  else []))
        × (read_31 (bytes_31 (granted (dispatched r acc buffer))) 0
            ≡ granted (dispatched r acc buffer))
        × IsSettled (read_batch d r acc buffer).0.session
  unfolding read_batch read_bytes
  read_batch-conserves r acc buffer settled few =
      let frames = (read_bytes acc buffer).0 in
      let t = dispatched r acc buffer in
      let owing : IsOwing r.session = λ h. absurd (omega (arith, settled.small)) in
      let bound : consumed_by_all r frames < 2 ^ 30 = omega (
        arith,
        few,
        consumed_all_bound frames r,
        split_payloads (length (acc ++ buffer)) (acc ++ buffer),
        length-append acc buffer,
      ) in
      let step =
        dispatch_all-IsStep frames r owing settled.window (omega (arith, settled.small, bound)) in
      let c = step.conserves in
      let (written, empty, idle, rest, size) = flush_reader_writes_lem t in
      let grant : granted t < 2 ^ 31 = omega (arith, rest, c.owed, c.limit, settled.small, bound) in
      (
        omega (arith, c.owed, rest, size),
        written,
        omega (arith, grant),
        record {
          small = left_small t (flush_reader_writes t).0.pending_conn_window step.owing rest;
          window = omega (arith, size, c.limit);
          sent = empty;
        },
      )
