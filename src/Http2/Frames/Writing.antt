-- ===== src/Http2/Frames/Writing.antt =====
-- The frames that the client writes, against the frame parser.
use http_request_client.Prelude.{
  ℕ, ◌^◌, ◌<◌, ◌≡◌, refl, sym, List, [], ◌∷◌, ◌++◌, append-nil, arith, length, ltb, lt→ltb, true,
}
use http_request_client.Http2.Frames.{
  Frame, bytes_31, read_31, read_all, fill_window_update_frame, fill_rst_stream_frame, data_frame,
}
use http_request_client.Http2.Frames.Reading.{wire, read_all-wires}

-- A WINDOW_UPDATE frame reads back as one frame for its stream, with the increment in its payload,
-- for identifiers and increments of 31 bits.
pub fill_window_update_lem :
    (stream_id increment : ℕ)
    → stream_id < 2 ^ 31
    → increment < 2 ^ 31
    → (read_all [] (fill_window_update_frame stream_id increment ∷ []) ≡ (
      record { frame_type = 8; flags = 0; stream_id = stream_id; payload = bytes_31 increment }
          ∷ [],
      [],
    ))
      × (read_31 (bytes_31 increment) 0 ≡ increment)
unfolding fill_window_update_frame
fill_window_update_lem stream_id increment id fits =
    let f : Frame = record {
      frame_type = 8;
      flags = 0;
      stream_id = stream_id;
      payload = bytes_31 increment;
    } in
    (
      read_all-wires (f ∷ []) [] (fill_window_update_frame stream_id increment ∷ [])
          (record { id_fits = id; size_fits = omega arith }, tt) (omega arith) refl,
      omega arith,
    )

-- A RST_STREAM frame reads back as one frame for its stream with the error code 8 (CANCEL), for
-- identifiers of 31 bits.
pub fill_rst_stream_lem :
    (stream_id : ℕ)
    → stream_id < 2 ^ 31
    → read_all [] (fill_rst_stream_frame stream_id ∷ []) ≡ (
      record { frame_type = 3; flags = 0; stream_id = stream_id; payload = 0 ∷ 0 ∷ 0 ∷ 8 ∷ [] }
          ∷ [],
      [],
    )
unfolding fill_rst_stream_frame
fill_rst_stream_lem stream_id id =
    let f : Frame = record {
      frame_type = 3;
      flags = 0;
      stream_id = stream_id;
      payload = 0 ∷ 0 ∷ 0 ∷ 8 ∷ [];
    } in
    read_all-wires (f ∷ []) [] (fill_rst_stream_frame stream_id ∷ [])
      (record { id_fits = id; size_fits = omega arith }, tt) (omega arith) refl

-- The frames of a request body: none for an empty body, else the one DATA frame with all of it.
abbrev pub body_frames : ℕ → List ℕ → List Frame
body_frames stream_id [] = []
body_frames stream_id (b ∷ bs) =
    record { frame_type = 0; flags = 1; stream_id = stream_id; payload = b ∷ bs } ∷ []

-- What is written for a request body reads back as one frame with END_STREAM and the whole body,
-- or, for an empty body, as no frame at all, so that no END_STREAM is sent; for identifiers of
-- 31 bits and bodies below 2 ^ 24 bytes.
pub data_frame_lem :
    (stream_id : ℕ) (payload : List ℕ)
    → stream_id < 2 ^ 31
    → length payload < 2 ^ 24
    → read_all [] (data_frame stream_id payload ∷ []) ≡ (body_frames stream_id payload, [])
unfolding data_frame read_all
data_frame_lem stream_id [] id fits = refl
data_frame_lem stream_id (b ∷ bs) id fits =
    let payload = b ∷ bs in
    let f : Frame = record {
      frame_type = 0;
      flags = 1;
      stream_id = stream_id;
      payload = payload;
    } in
    let filled : ltb 0 (length payload) ≡ true = lt→ltb 0 (length payload) (omega arith) in
    rw (data_frame, filled)
      (read_all-wires (f ∷ []) [] (wire f ∷ []) (record { id_fits = id; size_fits = fits }, tt)
        (omega arith) (sym (append-nil (wire f ++ []))))
