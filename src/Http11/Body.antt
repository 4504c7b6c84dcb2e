-- ===== src/Http11/Body.antt =====
-- src/Http11ResponseHandler.c: the body of a response, by its framing.
pub mod Plain
pub mod Blame
pub mod Sized
pub mod Sizes
pub mod Chunked
use http_request_client.Prelude.{
  ℕ, zero, suc, ◌+◌, ◌-◌, ◌*◌, List, [], ◌∷◌, Option, none, some, Bool, true, false, not, ◌&&◌,
  ◌||◌, leb, ltb, ◌==◌, if◌then◌else◌, length, take, drop,
}
use http_request_client.Prelude.Text.{codes, str_case_eq}
use http_request_client.Errors.{Error, is_error, err_response_reading_http11_failed}
use http_request_client.Response.Stream.{Decompressors, Funnel, append_stream_payload}
use http_request_client.Http11.Text.{Long, contains_ci, is_negative, split_at, str_to_long, trim}
use http_request_client.Http11.Reader.{
  Code, Read, Reader, is_done, is_stopped, reader_end_code, reader_fill, reader_read_line,
}
use http_request_client.Http11.Head.{available, classify_timeout_error, stream_header_value}

-- The text of a size line before a chunk extension.
unfoldable pub size_text : List ℕ → List ℕ
unfolding split_at
size_text line = elim (split_at b';' line) [ none ↦ line | some (size, extension) ↦ size ]

unfoldable pub chunk_size : List ℕ → Long
unfolding size_text trim str_to_long
chunk_size line = str_to_long 16 (trim (size_text line))

unfoldable pub is_trailer_end : List ℕ → Bool
is_trailer_end line = length line == 0

-- The loop behind the last chunk.
unfoldable pub trailer_rounds : ℕ → Reader → Code × Reader
unfolding reader_read_line is_trailer_end
trailer_rounds zero r = (Code.failed, r)
trailer_rounds (suc fuel) r =
    let (code, (line, next)) = reader_read_line r in
    let more = trailer_rounds fuel next in
    if not (is_done code)
    then (code, next)
    else if is_trailer_end line
    then (Code.done, next)
    else more

unfoldable pub is_bodyless_status : ℕ → Bool
is_bodyless_status status = status == 204 || (status == 304 || leb 100 status && ltb status 200)

-- Whether the header names the chunked coding.
unfoldable pub is_chunked : Option (List ℕ) → Bool
unfolding contains_ci
is_chunked none = false
is_chunked (some coding) = contains_ci coding (codes "chunked")

-- The test `noBody` of `readBody`.
unfoldable pub has_no_body : List ℕ → ℕ → Bool
unfolding is_bodyless_status
has_no_body method status = str_case_eq method (codes "HEAD") || is_bodyless_status status

module _ (d : Decompressors) where
  -- The code, the funnel and the reader behind a body.
  abbrev pub BodyRead : Type 0
  BodyRead = Code × (Funnel d × Reader)

  unfoldable pub body_rounds : ℕ → Funnel d → Reader → ℕ → BodyRead
  unfolding append_stream_payload is_stopped reader_end_code reader_fill
  body_rounds zero f r remaining = (Code.failed, (f, r))
  body_rounds (suc fuel) f r remaining =
      let amount = if ltb remaining (length r.unread) then remaining else length r.unread in
      let (accepted, fed) = append_stream_payload d f (take amount r.unread) in
      let consumed = record r { pos = r.pos + amount; unread = drop amount r.unread } in
      let more = body_rounds fuel fed consumed (remaining - amount) in
      let refilled = body_rounds fuel f (reader_fill r) remaining in
      if remaining == 0
      then (Code.done, (f, r))
      else if ltb 0 (length r.unread)
      then if accepted then more else (Code.failed, (fed, consumed))
      else if is_stopped r
      then (reader_end_code r, (f, r))
      else refilled

  -- A round empties the buffer, and the next one reads from the network.
  unfoldable pub reader_read_body : Funnel d → Reader → ℕ → BodyRead
  unfolding body_rounds
  reader_read_body f r n = body_rounds (2 * length r.reads + 4) f r n

  unfoldable pub chunk_rounds : ℕ → Funnel d → Reader → BodyRead
  unfolding reader_read_line chunk_size is_negative trailer_rounds reader_read_body
  chunk_rounds zero f r = (Code.failed, (f, r))
  chunk_rounds (suc fuel) f r =
      let (line_code, (line, behind_line)) = reader_read_line r in
      let size = chunk_size line in
      let (trailer_code, behind_trailers) = trailer_rounds (suc fuel) behind_line in
      let (data_code, (fed, behind_data)) = reader_read_body f behind_line size.magnitude in
      let (crlf_code, (crlf, behind_crlf)) = reader_read_line behind_data in
      let more = chunk_rounds fuel fed behind_crlf in
      if not (is_done line_code)
      then (line_code, (f, behind_line))
      else if is_negative size
      then (Code.failed, (f, behind_line))
      else if size.magnitude == 0
      then (trailer_code, (f, behind_trailers))
      else if not (is_done data_code)
      then (data_code, (fed, behind_data))
      else if not (is_done crlf_code)
      then (crlf_code, (fed, behind_crlf))
      else more

  -- Every round, of chunks or of trailers, takes a line, which is a byte at least.
  unfoldable pub read_chunked_body : Funnel d → Reader → BodyRead
  unfolding chunk_rounds
  read_chunked_body f r = chunk_rounds (suc (available r)) f r

  unfoldable pub read_content_length_body : Funnel d → Reader → ℕ → BodyRead
  unfolding reader_read_body
  read_content_length_body f r length' =
      if length' == 0 then (Code.done, (f, r)) else reader_read_body f r length'

  unfoldable pub until_close_rounds : Funnel d → Reader → List Read → BodyRead
  unfolding append_stream_payload
  until_close_rounds f r [] = (Code.timed_out, (f, record r { reads = [] }))
  until_close_rounds f r (Read.bytes b bs ∷ reads) =
      let (accepted, fed) = append_stream_payload d f (b ∷ bs) in
      let more = until_close_rounds fed r reads in
      if accepted then more else (Code.failed, (fed, record r { reads = reads }))
  until_close_rounds f r (Read.closed ∷ reads) = (Code.ended, (f, record r { reads = reads }))
  until_close_rounds f r (Read.failed ∷ reads) = (Code.failed, (f, record r { reads = reads }))
  until_close_rounds f r (Read.timed_out ∷ reads) =
      (Code.timed_out, (f, record r { reads = reads }))

  -- The loop reads from the network alone, past the buffer.
  unfoldable pub read_until_close_body : Funnel d → Reader → BodyRead
  unfolding until_close_rounds
  read_until_close_body f r = until_close_rounds f r r.reads

  abbrev pub is_body_ok : Code → Bool
  is_body_ok Code.done = true
  is_body_ok Code.ended = true
  is_body_ok Code.failed = false
  is_body_ok Code.timed_out = false

  -- The error of a body that failed with this code.
  unfoldable pub body_error : Funnel d → Code → Error
  unfolding classify_timeout_error
  body_error f Code.timed_out = classify_timeout_error d f.stream
  body_error f Code.done = err_response_reading_http11_failed
  body_error f Code.ended = err_response_reading_http11_failed
  body_error f Code.failed = err_response_reading_http11_failed

  unfoldable pub classify_body_error : BodyRead → BodyRead
  unfolding body_error
  classify_body_error (code, (f, r)) =
      if is_body_ok code
      then (code, (f, r))
      else if is_error f.stream.error
      then (Code.failed, (f, r))
      else (Code.failed, (record f { stream = record f.stream { error = body_error f code } }, r))

  -- The framing by the header "content-length", or by the end of the connection. The flag says that
  -- it is the latter.
  unfoldable pub read_unchunked_body : Option (List ℕ) → Funnel d → Reader → Bool × BodyRead
  read_unchunked_body none f r = (true, classify_body_error (read_until_close_body f r))
  read_unchunked_body (some text) f r =
      let length' = str_to_long 10 text in
      if is_negative length'
      then (false, classify_body_error (Code.failed, (f, r)))
      else (false, classify_body_error (read_content_length_body f r length'.magnitude))

  unfoldable pub read_body : List ℕ → Funnel d → Reader → ℕ → Bool × BodyRead
  unfolding read_unchunked_body
  read_body method f r status =
      if has_no_body method status
      then (false, (Code.done, (f, r)))
      else if is_chunked (stream_header_value f.stream.headers (codes "transfer-encoding"))
      then (false, classify_body_error (read_chunked_body f r))
      else read_unchunked_body (stream_header_value f.stream.headers (codes "content-length")) f r
