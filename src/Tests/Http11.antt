-- ===== src/Tests/Http11.antt =====
-- Responses of HTTP/1.1 on concrete bytes, cut into reads.
use http_request_client.Prelude.{
  ℕ, ◌≡◌, refl, List, [], ◌∷◌, ◌++◌, none, Bool, true, false, drop, length, take, not, ◌&&◌, ◌==◌,
  ◌<◌, All, arith,
}
use http_request_client.Prelude.Text.{codes, is_space, str_case_eq, to_lower}
use http_request_client.Errors.{is_error}
use http_request_client.Hpack.Block.{ResponseHeader}
use http_request_client.Response.Stream.{Funnel}
use http_request_client.Http11.Text.{contains_ci, digit_value, is_space_char, starts_with_ci}
use http_request_client.Http11.Text.Trimming.{IsBare, Lacks}
use http_request_client.Http11.Reader.{Read, Reader, lf, read_chunk}
use http_request_client.Http11.Reader.Lines.{IsText, IsReady, open_reader, wire_lines}
use http_request_client.Http11.Head.{stream_header_value}
use http_request_client.Http11.Head.Parsing.{
  IsField, IsStatusLine, StatusLine, field_line, field_lines, status_header, status_line,
}
use http_request_client.Http11.Body.{has_no_body, is_bodyless_status, is_chunked}
use http_request_client.Http11.Body.Chunked.{Chunk, IsChunk, wire_chunks}
use http_request_client.Http11.Response.{connection_closed_by_peer, receive_http11_response}
use http_request_client.Http11.Response.Whole.{
  Framed, IsWhole, chunked, receive_http11_response-IsWhole,
}
use http_request_client.Http11.Response.Reuse.{receive_http11_response-reuse}
use http_request_client.Tests.Response.{doubling, stream}

abbrev plain : Funnel doubling
plain = record { stream = stream; sink = none }

abbrev ok_line : StatusLine
ok_line = record {
  minor = codes "1";
  hundreds = b'2';
  tens = b'0';
  ones = b'0';
  reason = codes " OK";
}

abbrev fields : List ResponseHeader
fields =
    record { name = codes "Server"; value = codes "x" }
    ∷ (record { name = codes "Transfer-Encoding"; value = codes "Chunked" })
    ∷ []

abbrev chunk : Chunk
chunk = record {
  first_digit = b'0';
  digits = codes "A";
  extension = codes ";e=1";
  content = codes "0123456789";
}

abbrev last_chunk : Chunk
last_chunk = record { first_digit = b'0'; digits = []; extension = []; content = [] }

abbrev sent : List ℕ
sent =
    wire_lines (status_line ok_line ∷ field_lines fields)
      (wire_chunks (chunk ∷ []) last_chunk (codes "T: 1" ∷ []) (codes "next"))

abbrev as_read : List ℕ → List Read
as_read [] = []
as_read (b ∷ bs) = Read.bytes b bs ∷ []

-- The first read ends inside the header section, the second one inside the chunk.
abbrev reader : Reader
reader = open_reader 0 (take 30 sent) (as_read (take 40 (drop 30 sent)) ++ as_read (drop 70 sent))

reader-IsReady : IsReady reader
reader-IsReady = record {
  is_open = refl;
  is_fine = refl;
  bounded = (omega arith, (omega arith, tt));
  small = omega arith;
}

-- The predicates on texts as tests.
abbrev is_text : List ℕ → Bool
is_text [] = true
is_text (c ∷ cs) = not (c == lf) && (not (c == 0) && is_text cs)

is_text-IsText : (text : List ℕ) → is_text text ≡ true → IsText text
is_text-IsText [] h = tt
is_text-IsText (c ∷ cs) h = ground (arith, is_text-IsText cs)

ok_line-IsStatusLine : IsStatusLine ok_line
unfolding is_space_char is_space
ok_line-IsStatusLine = record {
  text = is_text-IsText (status_line ok_line) refl;
  short = omega arith;
  minor_word = (refl, tt);
  is_number = (refl, (refl, (refl, tt)));
}

abbrev lacks : ℕ → List ℕ → Bool
lacks separator [] = true
lacks separator (c ∷ cs) = not (c == separator) && lacks separator cs

lacks-Lacks : (separator : ℕ) (s : List ℕ) → lacks separator s ≡ true → Lacks separator s
lacks-Lacks separator [] h = tt
lacks-Lacks separator (c ∷ cs) h = ground (arith, lacks-Lacks separator cs)

example-IsField :
    (h : ResponseHeader)
    → is_text (field_line h) ≡ true
    → length (field_line h) < read_chunk
    → IsBare h.name
    → IsBare h.value
    → Lacks b':' h.name
    → IsField h
example-IsField h text short name value colonless = record {
  text = is_text-IsText (field_line h) text;
  short = short;
  name_bare = name;
  value_bare = value;
  colonless = colonless;
}

fields-IsField : All IsField fields
unfolding is_space_char is_space
fields-IsField = (
  example-IsField (record { name = codes "Server"; value = codes "x" }) refl (omega arith)
      (refl, refl) (refl, refl) (lacks-Lacks b':' (codes "Server") refl),
  (
    example-IsField (record { name = codes "Transfer-Encoding"; value = codes "Chunked" }) refl
        (omega arith) (refl, refl) (refl, refl) (lacks-Lacks b':' (codes "Transfer-Encoding") refl),
    tt,
  ),
)

chunk-IsChunk : IsChunk chunk
unfolding digit_value to_lower
chunk-IsChunk = record {
  hexadecimal = (omega arith, (omega arith, tt));
  extended = refl;
  text = is_text-IsText (codes "0A;e=1") refl;
  short = omega arith;
  size = refl;
  small = omega arith;
}

last_chunk-IsChunk : IsChunk last_chunk
unfolding digit_value to_lower
last_chunk-IsChunk = record {
  hexadecimal = (omega arith, tt);
  extended = tt;
  text = (refl, refl, tt);
  short = omega arith;
  size = refl;
  small = omega arith;
}

sent-Framed :
    Framed
      (codes "GET")
      200
      (status_header ok_line ∷ fields)
      (codes "next")
      (codes "0123456789")
      (wire_chunks (chunk ∷ []) last_chunk (codes "T: 1" ∷ []) (codes "next"))
unfolding has_no_body is_bodyless_status stream_header_value is_chunked contains_ci starts_with_ci
    str_case_eq to_lower
sent-Framed =
    chunked (chunk ∷ []) last_chunk (codes "T: 1" ∷ []) refl refl
      (((chunk-IsChunk, omega arith)), tt) last_chunk-IsChunk refl
      ((is_text-IsText (codes "T: 1") refl, omega arith, omega arith), tt)

receive_http11_response-IsWhole_example :
    IsWhole doubling plain
      (status_header ok_line ∷ fields)
      (codes "0123456789")
      (codes "next")
      (receive_http11_response doubling (codes "GET") false plain reader)
receive_http11_response-IsWhole_example =
    receive_http11_response-IsWhole doubling (codes "GET") plain reader ok_line fields
      ok_line-IsStatusLine fields-IsField (omega arith) sent-Framed refl refl tt reader-IsReady refl

example_stays_open :
    (receive_http11_response doubling (codes "GET") false plain reader).going_away ≡ false
unfolding connection_closed_by_peer str_case_eq
example_stays_open =
    (receive_http11_response-IsWhole doubling (codes "GET") plain reader ok_line fields
      ok_line-IsStatusLine fields-IsField (omega arith) sent-Framed refl refl tt reader-IsReady
      refl).going_away_is

receive_http11_response-reuse_example :
    is_error (receive_http11_response doubling (codes "GET") false plain reader).funnel.stream.error
    ≡ false
receive_http11_response-reuse_example =
    receive_http11_response-reuse doubling (codes "GET") false plain reader tt example_stays_open
