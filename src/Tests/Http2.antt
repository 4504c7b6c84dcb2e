-- ===== src/Tests/Http2.antt =====
-- Frames and flow control on concrete connections.
use http_request_client.Prelude.{
  ℕ, ◌+◌, ◌≤◌, ◌≡◌, ◌≢◌, inl, refl, List, [], ◌∷◌, ◌++◌, false, arith, length,
}
use http_request_client.Http2.Frames.{
  Frame, bytes_31, read_31, read_all, read_bytes, fill_window_update_frame, fill_rst_stream_frame,
  data_frame,
}
use http_request_client.Http2.Frames.Reading.{IsFrame, concat, read_all_cuts, read_all-wires}
use http_request_client.Http2.Frames.Writing.{
  fill_window_update_lem, fill_rst_stream_lem, body_frames, data_frame_lem,
}
use http_request_client.Http2.Flow.{
  Session, PendingWindowUpdate, queue_control_frame, add_stream_window_credit,
  discard_pending_stream_window,
}
use http_request_client.Http2.Flow.Queue.{queue_control_frame_fits}
use http_request_client.Http2.Flow.Ledger.{entries, owed}
use http_request_client.Http2.Flow.Credit.{
  IsLedger, Credited, add_stream_window_credit_lem, discard_pending_stream_window_lem,
}

-- A SETTINGS acknowledgement cut in three.
abbrev cuts : List (List ℕ)
cuts = (0 ∷ 0 ∷ 0 ∷ []) ∷ (4 ∷ 1 ∷ 0 ∷ 0 ∷ []) ∷ (0 ∷ 0 ∷ 7 ∷ []) ∷ []

read_all_cuts_example : read_all [] cuts ≡ read_bytes [] (concat cuts)
read_all_cuts_example = read_all_cuts cuts

abbrev ack : Frame
ack = record { frame_type = 4; flags = 1; stream_id = 0; payload = [] }

ack-IsFrame : IsFrame ack
ack-IsFrame = record { id_fits = omega arith; size_fits = omega arith }

read_all-wires_example : read_all [] cuts ≡ (ack ∷ [], 7 ∷ [])
read_all-wires_example =
    read_all-wires (ack ∷ []) (7 ∷ []) cuts (ack-IsFrame, tt) (omega arith) refl

fill_window_update_example :
    (read_all [] (fill_window_update_frame 5 70000 ∷ [])
      ≡ (record { frame_type = 8; flags = 0; stream_id = 5; payload = bytes_31 70000 } ∷ [], []))
    × (read_31 (bytes_31 70000) 0 ≡ 70000)
fill_window_update_example = fill_window_update_lem 5 70000 (omega arith) (omega arith)

fill_rst_stream_example :
    read_all [] (fill_rst_stream_frame 5 ∷ [])
    ≡ (record { frame_type = 3; flags = 0; stream_id = 5; payload = 0 ∷ 0 ∷ 0 ∷ 8 ∷ [] } ∷ [], [])
fill_rst_stream_example = fill_rst_stream_lem 5 (omega arith)

data_frame_example :
    read_all [] (data_frame 5 (104 ∷ 105 ∷ []) ∷ []) ≡ (body_frames 5 (104 ∷ 105 ∷ []), [])
data_frame_example = data_frame_lem 5 (104 ∷ 105 ∷ []) (omega arith) (omega arith)

-- A connection that owes 100 bytes, with credit of one stream in the ledger.
abbrev ledger : List PendingWindowUpdate
ledger = record { stream_id = 5; credit = 16000 } ∷ []

abbrev pub connection : Session
connection = record {
  pending_conn_window = 100;
  pending_stream_windows = ledger;
  conn_window_flush_due = false;
  conn_window_target = 65535;
  conn_window_since_growth = 0;
  pending_wire = [];
  pending_wire_capacity = 0;
}

queue_control_frame_example :
    (length (queue_control_frame connection (1 ∷ 2 ∷ [])).pending_wire
      ≤ (queue_control_frame connection (1 ∷ 2 ∷ [])).pending_wire_capacity)
    × ((queue_control_frame connection (1 ∷ 2 ∷ [])).pending_wire ≡ [] ++ (1 ∷ 2 ∷ []))
queue_control_frame_example = queue_control_frame_fits connection (1 ∷ 2 ∷ [])

ledger-IsLedger : IsLedger ledger
ledger-IsLedger = record {
  unique = λ id. ground arith;
  room = omega arith;
  batched = λ id. ground arith;
}

add_stream_window_credit_example :
    Credited 5 (owed ledger 5 + 1000) connection (add_stream_window_credit connection 5 1000)
add_stream_window_credit_example =
    add_stream_window_credit_lem connection 5 1000 ledger-IsLedger (inl refl) (omega arith)

discard_pending_stream_window_example :
    IsLedger (discard_pending_stream_window connection 5).pending_stream_windows
    × (entries (discard_pending_stream_window connection 5).pending_stream_windows 5 ≡ 0)
    × ((other : ℕ)
        → 5 ≢ other
        → owed (discard_pending_stream_window connection 5).pending_stream_windows other
          ≡ owed ledger other)
    × ((discard_pending_stream_window connection 5).pending_wire ≡ [])
discard_pending_stream_window_example =
    discard_pending_stream_window_lem connection 5 ledger-IsLedger
