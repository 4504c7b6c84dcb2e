-- ===== src/Http11/Head.antt =====
-- src/Http11ResponseHandler.c: the status line and the header fields of a response, and the errors
-- of a head that cannot be read.
pub mod Parsing
use http_request_client.Prelude.{
  ℕ, zero, suc, ◌+◌, ◌-◌, ◌*◌, List, [], ◌∷◌, ◌++◌, Option, none, some, Bool, true, false, not,
  ◌&&◌, ◌||◌, leb, ltb, ◌==◌, if◌then◌else◌, length, drop,
}
use http_request_client.Prelude.Text.{codes, str_case_eq}
use http_request_client.Errors.{
  Error, err_response_partial_content_after_reading_timeout,
  err_response_no_content_after_reading_timeout, err_response_reading_connection_error,
  err_response_reading_http11_failed,
}
use http_request_client.Hpack.Block.{ResponseHeader, response_headers_max_size}
use http_request_client.Response.Stream.{Decompressors, Stream}
use http_request_client.Http11.Text.{is_space_char, skip_spaces, trim, split_at, starts_with}
use http_request_client.Http11.Reader.{Code, Read, Reader, reader_read_line, is_done}

unfoldable pub add_stream_header : List ResponseHeader → List ℕ → List ℕ → List ResponseHeader
add_stream_header headers name value =
    if leb response_headers_max_size (length headers)
    then headers
    else headers ++ (record { name = name; value = value }) ∷ []

unfoldable pub stream_header_value : List ResponseHeader → List ℕ → Option (List ℕ)
stream_header_value [] name = none
stream_header_value (h ∷ hs) name =
    if str_case_eq h.name name then some h.value else stream_header_value hs name

unfoldable pub is_http11_status_line : List ℕ → Bool
is_http11_status_line line = starts_with line (codes "HTTP/1.")

-- `isdigit` of the C locale.
abbrev pub is_digit : ℕ → Bool
is_digit c = leb b'0' c && leb c b'9'

-- At most `limit` digits from the front.
unfoldable pub copy_status_code : ℕ → List ℕ → List ℕ
copy_status_code zero s = []
copy_status_code (suc limit) [] = []
copy_status_code (suc limit) (c ∷ cs) = if is_digit c then c ∷ copy_status_code limit cs else []

-- What the first loop of `parseStatusLine` passes over.
unfoldable pub skip_word : List ℕ → List ℕ
unfolding is_space_char
skip_word [] = []
skip_word (c ∷ cs) = if is_space_char c then c ∷ cs else skip_word cs

-- `atoi` of a string of digits.
unfoldable pub digits_value : ℕ → List ℕ → ℕ
digits_value acc [] = acc
digits_value acc (c ∷ cs) = digits_value (acc * 10 + (c - b'0')) cs

-- The status, if there is one, and the headers with ":status".
unfoldable pub parse_status_line : List ResponseHeader → List ℕ → Option ℕ × List ResponseHeader
unfolding is_http11_status_line skip_word skip_spaces copy_status_code add_stream_header
    digits_value starts_with
parse_status_line headers line =
    let code = copy_status_code 3 (skip_spaces (skip_word (drop 7 line))) in
    if not (is_http11_status_line line)
    then (none, headers)
    else if not (length code == 3)
    then (none, headers)
    else (some (digits_value 0 code), add_stream_header headers (codes ":status") code)

unfoldable pub parse_header_line : List ResponseHeader → List ℕ → List ResponseHeader
unfolding split_at trim add_stream_header
parse_header_line headers line = elim (split_at b':' line) [
  | none ↦ headers
  | some (name, value) ↦ add_stream_header headers (trim name) (trim value)
]

unfoldable pub header_rounds :
    ℕ → List ResponseHeader → Reader → Code × (List ResponseHeader × Reader)
unfolding parse_header_line reader_read_line
header_rounds zero headers r = (Code.failed, (headers, r))
header_rounds (suc fuel) headers r =
    let (code, (line, next)) = reader_read_line r in
    let more = header_rounds fuel (parse_header_line headers line) next in
    if not (is_done code)
    then (code, (headers, next))
    else if length line == 0
    then (Code.done, (headers, next))
    else more

-- All bytes that a reader can still meet.
abbrev pub read_bytes : List Read → ℕ
read_bytes [] = 0
read_bytes (Read.bytes b bs ∷ reads) = suc (length bs) + read_bytes reads
read_bytes (Read.closed ∷ reads) = read_bytes reads
read_bytes (Read.failed ∷ reads) = read_bytes reads
read_bytes (Read.timed_out ∷ reads) = read_bytes reads

abbrev pub available : Reader → ℕ
available r = length r.unread + read_bytes r.reads

-- A round takes a line, which is a byte at least.
unfoldable pub read_header_section :
    List ResponseHeader → Reader → Code × (List ResponseHeader × Reader)
unfolding header_rounds
read_header_section headers r = header_rounds (suc (available r)) headers r

module _ (d : Decompressors) where
  unfoldable pub has_partial_response : Stream d → Bool
  has_partial_response stream =
      ltb 0 (length stream.headers) || ltb 0 (length stream.combined_payload)

  unfoldable pub classify_timeout_error : Stream d → Error
  unfolding has_partial_response
  classify_timeout_error stream =
      if has_partial_response stream
      then err_response_partial_content_after_reading_timeout
      else err_response_no_content_after_reading_timeout

  -- The code with which the status line was read.
  unfoldable pub classify_head_error : Stream d → Reader → Code → Error
  unfolding classify_timeout_error
  classify_head_error stream r code =
      let clean_eof = (elim code [ Code.ended ↦ true | _ ↦ false ]) && length stream.headers == 0 in
      elim r.err [
        | Code.timed_out ↦ classify_timeout_error stream
        | Code.failed ↦ err_response_reading_connection_error
        | _ ↦
            if clean_eof
            then err_response_reading_connection_error
            else err_response_reading_http11_failed
      ]

  -- The status, or none, in which case the stream has an error.
  unfoldable pub read_response_head : Stream d → Reader → Option ℕ × (Stream d × Reader)
  read_response_head stream r =
      let (line_code, (line, behind_line)) = reader_read_line r in
      let (status, headers) = parse_status_line stream.headers line in
      let (code, (all_headers, behind)) = read_header_section headers behind_line in
      let failing : Stream d → Reader → Option ℕ × (Stream d × Reader) =
        λ s last. (none, (record s { error = classify_head_error s last line_code }, last)) in
      if not (is_done line_code) then failing stream behind_line else elim status [
        | none ↦ failing (record stream { headers = headers }) behind_line
        | some number ↦
            if is_done code
            then (some number, (record stream { headers = all_headers }, behind))
            else failing (record stream { headers = all_headers }) behind
      ]
