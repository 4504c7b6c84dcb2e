-- ===== src/Http2/Flow/Connection.antt =====
-- Connection credit over the frames of a read: replenishStreamWindow, tuneConnectionWindow and what
-- readerDispatch queues.
use http_request_client.Prelude.{
  ◌&&◌, ℕ, ◌+◌, ◌-◌, ◌*◌, ◌%◌, ◌^◌, ◌≤◌, ◌<◌, ◌≡◌, refl, inl, inr, [], ◌∷◌, ◌++◌, Bool, true, false,
  not, ◌||◌, arith, ltb, leb, ◌==◌, if◌then◌else◌, length, Bool-cases, Option-cases,
}
use http_request_client.Http2.Flow.{
  Session, StreamReading, add_32, connection_window_max, connection_window_update_threshold,
  max_concurrent_streams_per_session, stream_window_update_threshold, tune_connection_window,
  replenish_stream_window, settle_reading, acknowledge, queue_rst_stream_frame, raise_credit,
  add_stream_window_credit, discard_pending_stream_window, queue_window_update_frame,
  queue_control_frame, find_pending_window,
}
use http_request_client.Http2.Frames.{Frame}

-- The connection credit owed, and the size of the window, of a session.
pub record SameConnection (s t : Session) : Type 0 where
  pub owed : t.pending_conn_window ≡ s.pending_conn_window
  pub size : t.conn_window_target ≡ s.conn_window_target

pick-SameConnection :
    {s t u : Session} (b : Bool)
    → SameConnection s t
    → SameConnection s u
    → SameConnection s (if b then t else u)
pick-SameConnection true p q = p
pick-SameConnection false p q = q

raise_credit-SameConnection :
    (s : Session) (id held credit : ℕ) → SameConnection s (raise_credit s id held credit)
unfolding raise_credit queue_window_update_frame queue_control_frame
raise_credit-SameConnection s id held credit =
    pick-SameConnection (leb (add_32 held credit) stream_window_update_threshold)
      (record { owed = refl; size = refl }) (record { owed = refl; size = refl })

add_credit-SameConnection :
    (s : Session) (id credit : ℕ) → SameConnection s (add_stream_window_credit s id credit)
unfolding add_stream_window_credit
add_credit-SameConnection s id credit =
    elim (Option-cases (find_pending_window s.pending_stream_windows id)) [
      | inl e ↦
          rw (add_stream_window_credit, e)
            (pick-SameConnection
              (leb max_concurrent_streams_per_session (length s.pending_stream_windows))
              (record { owed = refl; size = refl })
              (let p =
                  raise_credit-SameConnection
                    (record s {
                      pending_stream_windows =
                          s.pending_stream_windows ++ (record { stream_id = id; credit = 0 } ∷ []);
                    })
                    id 0 credit in
                record { owed = p.owed; size = p.size }))
      | inr (held, e) ↦
          rw (add_stream_window_credit, e) (raise_credit-SameConnection s id held credit)
    ]

-- The credit owed afterwards is what was owed, what was consumed, and what the window grew by.
pub record Conserves (consumed : ℕ) (s t : Session) : Type 0 where
  pub owed :
      t.pending_conn_window + s.conn_window_target
      ≡ s.pending_conn_window + consumed + t.conn_window_target
  pub grows : s.conn_window_target ≤ t.conn_window_target
  pub limit : t.conn_window_target ≤ connection_window_max

pick-Conserves :
    {n : ℕ} {s t u : Session} (b : Bool)
    → Conserves n s t
    → Conserves n s u
    → Conserves n s (if b then t else u)
pick-Conserves true p q = p
pick-Conserves false p q = q

-- The window that tuning aims for.
abbrev next_target : ℕ → ℕ
next_target previous =
    if ltb (previous * 2 % 2 ^ 32) connection_window_max
    then previous * 2 % 2 ^ 32
    else connection_window_max

next_target_range :
    (previous : ℕ)
    → previous < connection_window_max
    → (previous ≤ next_target previous) × (next_target previous ≤ connection_window_max)
next_target_range previous h = (ground arith, ground arith)

pub unchanged : (s : Session) → s.conn_window_target ≤ connection_window_max → Conserves 0 s s
unchanged s h = record { owed = omega arith; grows = omega arith; limit = h }

-- Tuning raises the debt with the window.
tune-Conserves :
    (s : Session) (n : ℕ)
    → s.conn_window_target ≤ connection_window_max
    → s.pending_conn_window + connection_window_max < 2 ^ 32
    → Conserves 0 s (tune_connection_window s n)
unfolding tune_connection_window
tune-Conserves s n h k = elim (Bool-cases (leb connection_window_max s.conn_window_target)) [
  | inl largest ↦ rw largest (unchanged s h)
  | inr smaller ↦
      let (grows, limit) = next_target_range s.conn_window_target (ground arith) in
      let target = next_target s.conn_window_target in
      let room : s.pending_conn_window + (target - s.conn_window_target) < 2 ^ 32 = omega arith in
      rw smaller (
        pick-Conserves (ltb (add_32 s.conn_window_since_growth n) s.conn_window_target)
          (record { owed = omega arith; grows = omega arith; limit = h })
          (record { owed = omega arith; grows = grows; limit = limit }))
]

pub same-Conserves :
    (n : ℕ) (s t u : Session) → Conserves n s t → SameConnection t u → Conserves n s u
same-Conserves n s t u c e = record {
  owed = omega (arith, c.owed, e.owed, e.size);
  grows = omega (arith, c.grows, e.size);
  limit = omega (arith, c.limit, e.size);
}

-- The credit of the consumed bytes, before the stream's own ledger.
abbrev credited : Session → ℕ → Session
credited s n =
    if ltb 0 n
    then tune_connection_window (record s { pending_conn_window = add_32 s.pending_conn_window n })
        n
    else s

credited-Conserves :
    (s : Session) (n : ℕ)
    → s.conn_window_target ≤ connection_window_max
    → s.pending_conn_window + n + connection_window_max < 2 ^ 32
    → Conserves n s (credited s n)
credited-Conserves s n h k = elim (Bool-cases (ltb 0 n)) [
  | inl some_bytes ↦
      let raised = record s { pending_conn_window = add_32 s.pending_conn_window n } in
      let c = tune-Conserves raised n h (omega arith) in
      rw some_bytes (record { owed = omega (arith, c.owed); grows = c.grows; limit = c.limit })
  | inr no_bytes ↦ rw no_bytes (record { owed = ground arith; grows = omega arith; limit = h })
]

-- Credit that reaches the threshold is due at the end of the batch.
abbrev pub IsOwing : Session → Type 0
IsOwing s = (65535 ≤ s.pending_conn_window) → s.conn_window_flush_due ≡ true

replenish-IsOwing :
    (s : Session) (id : ℕ) (r : StreamReading) → IsOwing (replenish_stream_window s id r)
unfolding replenish_stream_window
replenish-IsOwing s id r = due r.ended _
  where
    due :
        (ended : Bool) (t : Session)
        → IsOwing (
            if ended || leb connection_window_update_threshold t.pending_conn_window
            then record t { conn_window_flush_due = true }
            else t)
    due true t h = refl
    due false t h =
        elim (Bool-cases (leb connection_window_update_threshold t.pending_conn_window)) [
          | inl large ↦ rw large refl
          | inr small ↦ absurd (ground arith)
        ]

replenish-Conserves :
    (s : Session) (id : ℕ) (r : StreamReading)
    → s.conn_window_target ≤ connection_window_max
    → s.pending_conn_window + r.consumed_bytes + connection_window_max < 2 ^ 32
    → Conserves r.consumed_bytes s (replenish_stream_window s id r)
unfolding replenish_stream_window discard_pending_stream_window
replenish-Conserves s id r h k =
    let n = r.consumed_bytes in
    let t = credited s n in
    let dead = r.ended || (r.reset || not (r.cancel_stream_id == 0)) in
    let settled =
      if dead
      then discard_pending_stream_window t id
      else if ltb 0 n
      then add_stream_window_credit t id n
      else t in
    let same : SameConnection t settled =
      pick-SameConnection dead (record { owed = refl; size = refl })
        (pick-SameConnection (ltb 0 n) (add_credit-SameConnection t id n)
          (record { owed = refl; size = refl })) in
    let c = same-Conserves n s t settled (credited-Conserves s n h k) same in
    pick-Conserves (r.ended || leb connection_window_update_threshold settled.pending_conn_window)
      (record { owed = c.owed; grows = c.grows; limit = c.limit }) c

pick-IsOwing : (b : Bool) (s t : Session) → IsOwing s → IsOwing t → IsOwing (if b then s else t)
pick-IsOwing true s t p q = p
pick-IsOwing false s t p q = q

-- A frame of a stream: its credit, and the frame that ends a cancelled stream.
pub settle_reading-Conserves :
    (s : Session) (id : ℕ) (r : StreamReading)
    → s.conn_window_target ≤ connection_window_max
    → s.pending_conn_window + r.consumed_bytes + connection_window_max < 2 ^ 32
    → Conserves r.consumed_bytes s (settle_reading s id r) × IsOwing (settle_reading s id r)
unfolding settle_reading queue_rst_stream_frame queue_control_frame
settle_reading-Conserves s id r h k =
    let c = replenish-Conserves s id r h k in
    let o = replenish-IsOwing s id r in
    let stopped = queue_rst_stream_frame (replenish_stream_window s id r) r.cancel_stream_id in
    (
      pick-Conserves (r.cancel_stream_id == 0) c
          (record { owed = c.owed; grows = c.grows; limit = c.limit }),
      pick-IsOwing (r.cancel_stream_id == 0) (replenish_stream_window s id r) stopped o o,
    )

pub acknowledge-SameConnection : (s : Session) (f : Frame) → SameConnection s (acknowledge s f)
unfolding acknowledge queue_control_frame
acknowledge-SameConnection s f =
    pick-SameConnection (f.frame_type == 4 && f.flags % 2 == 0)
      (record { owed = refl; size = refl })
      (pick-SameConnection (f.frame_type == 6 && (f.flags % 2 == 0 && length f.payload == 8))
        (record { owed = refl; size = refl }) (record { owed = refl; size = refl }))

pub acknowledge-IsOwing : (s : Session) (f : Frame) → IsOwing s → IsOwing (acknowledge s f)
unfolding acknowledge queue_control_frame
acknowledge-IsOwing s f o =
    pick-IsOwing (f.frame_type == 4 && f.flags % 2 == 0) _ _ o
      (pick-IsOwing (f.frame_type == 6 && (f.flags % 2 == 0 && length f.payload == 8)) _ _ o o)
