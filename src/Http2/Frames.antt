-- ===== src/Http2/Frames.antt =====
-- HTTP/2 frames as bytes: the frames that src/Http2RequestHandler.c and readerDispatch of
-- src/Http2ResponseHandler.c write, and the frame parser of readerLoop.
-- Bytes are numbers below 256; the `|` of shifted bytes in the source is a sum here, since the
-- shifted bytes do not overlap.
pub mod Reading
pub mod Writing
use http_request_client.Prelude.{
  ℕ, zero, suc, ◌+◌, ◌*◌, ◌/◌, ◌%◌, ◌^◌, List, [], ◌∷◌, ◌++◌, ltb, if◌then◌else◌, length, get_or,
  take, drop,
}

pub record Frame : Type 0 where
  pub frame_type : ℕ
  pub flags : ℕ
  pub stream_id : ℕ
  pub payload : List ℕ

-- The number in three or four bytes from a position on; in the second the highest bit is masked.
abbrev pub read_24 : List ℕ → ℕ → ℕ
read_24 buf i = get_or buf i 0 * 65536 + get_or buf (i + 1) 0 * 256 + get_or buf (i + 2) 0

abbrev pub read_31 : List ℕ → ℕ → ℕ
read_31 buf i =
    get_or buf i 0 % 128 * 16777216
    + get_or buf (i + 1) 0 * 65536
    + get_or buf (i + 2) 0 * 256
    + get_or buf (i + 3) 0

abbrev pub read_32 : List ℕ → ℕ → ℕ
read_32 buf i =
    get_or buf i 0 * 16777216
    + get_or buf (i + 1) 0 * 65536
    + get_or buf (i + 2) 0 * 256
    + get_or buf (i + 3) 0

-- The frame at the front of a buffer that holds all of it, as it goes to `readerDispatch`.
abbrev pub read_frame : List ℕ → Frame
read_frame acc = record {
  frame_type = get_or acc 3 0;
  flags = get_or acc 4 0;
  stream_id = read_31 acc 5;
  payload = take (read_24 acc 0) (drop 9 acc);
}

-- `while (offset + 9 <= accSize)`: the complete frames at the front of the buffer from `offset` on,
-- in order, and the bytes that stay for the next read.
unfoldable pub split_frames : ℕ → List ℕ → List Frame × List ℕ
split_frames zero acc = ([], acc)
split_frames (suc fuel) acc =
    let more = split_frames fuel (drop (9 + read_24 acc 0) acc) in
    if ltb (length acc) 9
    then ([], acc)
    else if ltb (length acc) (9 + read_24 acc 0)
    then ([], acc)
    else (read_frame acc ∷ more.0, more.1)

-- One `SSL_read` of the loop: the bytes join the accumulated ones, and complete frames leave.
unfoldable pub read_bytes : List ℕ → List ℕ → List Frame × List ℕ
unfolding split_frames
read_bytes acc buffer = split_frames (length (acc ++ buffer)) (acc ++ buffer)

-- The reads of a connection one after another, from what has accumulated.
unfoldable pub read_all : List ℕ → List (List ℕ) → List Frame × List ℕ
unfolding read_bytes
read_all acc [] = ([], acc)
read_all acc (buffer ∷ buffers) =
    let (frames, rest) = read_bytes acc buffer in
    let (more, left) = read_all rest buffers in (frames ++ more, left)

-- A number as four bytes, and as the 31 bits of a stream identifier or an increment.
abbrev pub bytes_31 : ℕ → List ℕ
bytes_31 n = n / 16777216 % 128 ∷ n / 65536 % 256 ∷ n / 256 % 256 ∷ n % 256 ∷ []

abbrev pub bytes_24 : ℕ → List ℕ
bytes_24 n = n / 65536 % 256 ∷ n / 256 % 256 ∷ n % 256 ∷ []

unfoldable pub fill_window_update_frame : ℕ → ℕ → List ℕ
fill_window_update_frame stream_id increment =
    (0 ∷ 0 ∷ 4 ∷ 8 ∷ 0 ∷ []) ++ (bytes_31 stream_id ++ bytes_31 increment)

unfoldable pub fill_rst_stream_frame : ℕ → List ℕ
fill_rst_stream_frame stream_id =
    (0 ∷ 0 ∷ 4 ∷ 3 ∷ 0 ∷ []) ++ (bytes_31 stream_id ++ (0 ∷ 0 ∷ 0 ∷ 8 ∷ []))

abbrev pub settings_ack : List ℕ
settings_ack = 0 ∷ 0 ∷ 0 ∷ 4 ∷ 1 ∷ 0 ∷ 0 ∷ 0 ∷ 0 ∷ []

unfoldable pub ping_ack : List ℕ → List ℕ
ping_ack payload = (0 ∷ 0 ∷ 8 ∷ 6 ∷ 1 ∷ 0 ∷ 0 ∷ 0 ∷ 0 ∷ []) ++ take 8 payload

-- The bytes that `sendDataFrame` writes for a payload; nothing for an empty one.
unfoldable pub data_frame : ℕ → List ℕ → List ℕ
data_frame stream_id payload =
    if ltb 0 (length payload)
    then bytes_24 (length payload) ++ ((0 ∷ 1 ∷ []) ++ (bytes_31 stream_id ++ payload))
    else []
