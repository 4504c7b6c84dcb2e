-- ===== src/Tests/Reader.antt =====
-- A read of the reader thread that holds two frames.
use http_request_client.Prelude.{ℕ, ◌+◌, ◌≡◌, refl, List, [], ◌∷◌, ◌++◌, arith, if◌then◌else◌, ltb}
use http_request_client.Http2.Frames.{bytes_31, read_31, read_bytes, fill_window_update_frame}
use http_request_client.Http2.Flow.Queue.{granted}
use http_request_client.Http2.Reader.{ReaderSession, read_batch}
use http_request_client.Http2.Reader.Credit.{
  IsSettled, consumed_by_all, dispatched, read_batch-conserves,
}
use http_request_client.Tests.Http2.{connection}
use http_request_client.Tests.Response.{doubling}
use http_request_client.Tests.Streams.{lost, slots}

abbrev reader : ReaderSession doubling
reader = record { session = connection; conn = lost; slots = slots }

connection-IsSettled : IsSettled doubling connection
connection-IsSettled = record { small = omega arith; window = omega arith; sent = refl }

-- SETTINGS, which is acknowledged, and a body that ends its stream.
abbrev settings : List ℕ
settings = 0 ∷ 0 ∷ 0 ∷ 4 ∷ 0 ∷ 0 ∷ 0 ∷ 0 ∷ 0 ∷ []

abbrev body : List ℕ
body = 0 ∷ 0 ∷ 2 ∷ 0 ∷ 1 ∷ 0 ∷ 0 ∷ 0 ∷ 5 ∷ 104 ∷ 105 ∷ []

read_batch_example :
    (granted (dispatched doubling reader settings body)
        + (read_batch doubling reader settings body).0.session.pending_conn_window
        + 65535
      ≡ 100
        + consumed_by_all doubling reader (read_bytes settings body).0
        + (read_batch doubling reader settings body).0.session.conn_window_target)
    × ((read_batch doubling reader settings body).1.0
        ≡ (dispatched doubling reader settings body).pending_wire
          ++ (if ltb 0 (granted (dispatched doubling reader settings body))
              then fill_window_update_frame 0 (granted (dispatched doubling reader settings body))
              else []))
    × (read_31 (bytes_31 (granted (dispatched doubling reader settings body))) 0
        ≡ granted (dispatched doubling reader settings body))
    × IsSettled doubling (read_batch doubling reader settings body).0.session
read_batch_example =
    read_batch-conserves doubling reader settings body connection-IsSettled (omega arith)
