-- ===== src/Http2/Flow/Queue.antt =====
-- The control frame queue: queueControlFrame and flushReaderWrites.
use http_request_client.Prelude.{
  ℕ, zero, suc, ◌+◌, ◌*◌, ◌≤◌, ◌<◌, ◌≡◌, refl, sym, inl, inr, List, [], ◌++◌, append-nil, false,
  arith, ltb, ◌==◌, if◌then◌else◌, length, length-append, Bool-cases,
}
use http_request_client.Http2.Frames.{fill_window_update_frame}
use http_request_client.Http2.Flow.{
  Session, double_to, queue_control_frame, queue_window_update_frame, queue_owed_credit,
  flush_reader_writes,
}

double_to_enough :
    (rounds needed capacity : ℕ)
    → 0 < capacity
    → needed ≤ rounds + capacity
    → needed ≤ double_to rounds needed capacity
unfolding double_to
double_to_enough zero needed capacity p h = omega arith
double_to_enough (suc rounds) needed capacity p h = elim (Bool-cases (ltb capacity needed)) [
  | inl small ↦ rw small (double_to_enough rounds needed (capacity * 2) (omega arith) (omega arith))
  | inr large ↦ rw large (ground arith)
]

-- A queued frame always fits the buffer, whatever its capacity was, and stands behind the frames
-- already queued.
pub queue_control_frame_fits :
    (session : Session) (frame : List ℕ)
    → (length (queue_control_frame session frame).pending_wire
        ≤ (queue_control_frame session frame).pending_wire_capacity)
      × ((queue_control_frame session frame).pending_wire ≡ session.pending_wire ++ frame)
unfolding queue_control_frame
queue_control_frame_fits session frame =
    let needed = length session.pending_wire + length frame in
    let capacity = session.pending_wire_capacity in
    let size = length-append session.pending_wire frame in
    (
      elim (Bool-cases (ltb capacity needed)) [
        | inl full ↦ rw full (elim (Bool-cases (capacity == 0)) [
          | inl none_yet ↦
              rw none_yet (
                omega (arith, size, double_to_enough needed needed 256 (omega arith) (omega arith)))
          | inr some_yet ↦ rw some_yet (
              let p : 0 < capacity = ground arith in
              omega (arith, size, double_to_enough needed needed capacity p (omega arith)))
        ])
        | inr room ↦ rw room (let p : needed ≤ capacity = ground arith in omega (arith, size))
      ],
      refl,
    )

-- The connection credit that a batch end returns to the peer.
abbrev pub granted : Session → ℕ
granted session = if session.conn_window_flush_due then session.pending_conn_window else 0

-- A batch end writes the queue and, if credit is due, one more frame for the credit owed to the
-- connection; it leaves an empty queue, no flush due, and the credit that was not returned.
pub flush_reader_writes_lem :
    (session : Session)
    → ((flush_reader_writes session).1
        ≡ session.pending_wire
          ++ (if ltb 0 (granted session) then fill_window_update_frame 0 (granted session) else []))
      × ((flush_reader_writes session).0.pending_wire ≡ [])
      × ((flush_reader_writes session).0.conn_window_flush_due ≡ false)
      × (granted session + (flush_reader_writes session).0.pending_conn_window
          ≡ session.pending_conn_window)
      × ((flush_reader_writes session).0.conn_window_target ≡ session.conn_window_target)
unfolding flush_reader_writes queue_owed_credit queue_window_update_frame queue_control_frame
flush_reader_writes_lem session = elim (Bool-cases session.conn_window_flush_due) [
  | inl due ↦ elim (Bool-cases (ltb 0 session.pending_conn_window)) [
    | inl owed ↦ rw (due, owed) (refl, refl, refl, omega arith, refl)
    | inr settled ↦
        let nothing : session.pending_conn_window ≡ 0 = ground arith in
        rw (due, settled) (sym (append-nil session.pending_wire), refl, refl, omega arith, refl)
  ]
  | inr idle ↦ rw idle (sym (append-nil session.pending_wire), refl, refl, omega arith, refl)
]
