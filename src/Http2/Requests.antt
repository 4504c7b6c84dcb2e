-- ===== src/Http2/Requests.antt =====
-- The header block of a request: hpackHeaders, hpackPseudoHeaders and the loop of
-- buildHttp2HeadersFrame in src/Http2RequestHandler.c, with the sizes of the buffers that they write to.
pub mod Lookup
pub mod Reading
pub mod Writing
pub mod Overflow
pub mod Raw
pub mod Pseudo
pub mod Loop
pub mod Blocks
use Prim.Native.Nat.{bit_or}
use Prim.Native.String.{String}
use http_request_client.Prelude.{
  ℕ, ◌+◌, ◌-◌, ◌%◌, ◌*◌, ◌/◌, leb, List, [], ◌∷◌, ◌++◌, Option, none, some, Bool, true, false, not,
  ◌&&◌, ◌||◌, ltb, if◌then◌else◌, length,
}
use http_request_client.Prelude.Text.{codes, str_case_eq}
use http_request_client.Hpack.Huffman.{hpack_huffman_encode}
use http_request_client.Hpack.Integer.{hpack_encode_integer}
use http_request_client.Hpack.Strings.{write_huffman_value}
use http_request_client.Request.Order.{RequestHeader}

pub record StaticEntry : Type 0 where
  pub name : List ℕ
  pub index : ℕ

entry : String → ℕ → StaticEntry
entry name index = record { name = codes name; index = index }

unfoldable pub request_header_static_table : List StaticEntry
unfolding entry
request_header_static_table =
    entry "accept" 19
    ∷ entry "accept-charset" 15
    ∷ entry "accept-encoding" 16
    ∷ entry "accept-language" 17
    ∷ entry "accept-ranges" 18
    ∷ entry "access-control-allow-origin" 20
    ∷ entry "age" 21
    ∷ entry "allow" 22
    ∷ entry "authorization" 23
    ∷ entry "cache-control" 24
    ∷ entry "content-disposition" 25
    ∷ entry "content-encoding" 26
    ∷ entry "content-language" 27
    ∷ entry "content-length" 28
    ∷ entry "content-location" 29
    ∷ entry "content-range" 30
    ∷ entry "content-type" 31
    ∷ entry "cookie" 32
    ∷ entry "date" 33
    ∷ entry "etag" 34
    ∷ entry "expect" 35
    ∷ entry "expires" 36
    ∷ entry "from" 37
    ∷ entry "host" 38
    ∷ entry "if-match" 39
    ∷ entry "if-modified-since" 40
    ∷ entry "if-none-match" 41
    ∷ entry "if-range" 42
    ∷ entry "if-unmodified-since" 43
    ∷ entry "last-modified" 44
    ∷ entry "link" 45
    ∷ entry "location" 46
    ∷ entry "max-forwards" 47
    ∷ entry "proxy-authenticate" 48
    ∷ entry "proxy-authorization" 49
    ∷ entry "range" 50
    ∷ entry "referer" 51
    ∷ entry "refresh" 52
    ∷ entry "retry-after" 53
    ∷ entry "server" 54
    ∷ entry "set-cookie" 55
    ∷ entry "strict-transport-security" 56
    ∷ entry "transfer-encoding" 57
    ∷ entry "user-agent" 58
    ∷ entry "vary" 59
    ∷ entry "via" 60
    ∷ entry "www-authenticate" 61
    ∷ []

-- `bsearch` with `compareHpackEntry`: the names are sorted and differ, so that at most one compares
-- equal, and it is the one found.
unfoldable pub find_entry : List StaticEntry → List ℕ → Option ℕ
unfolding str_case_eq
find_entry [] name = none
find_entry (e ∷ es) name = if str_case_eq name e.name then some e.index else find_entry es name

-- What is made of a header, or of a request: its bytes, the error
-- ERR_REQUEST_UNKNOWN_PSEUDO_HEADER, or a write past the end of a buffer, which has no defined result.
pub data Written : Type 0 where
  written : List ℕ → Written
  unknown_header : Written
  overflow : Written

abbrev pub behind : List ℕ → Option (List ℕ) → Written
behind first none = Written.overflow
behind first (some bytes) = Written.written (first ++ bytes)

-- A name that the table lacks, in Huffman code, and its buffer of 128 bytes.
unfoldable pub huffman_name : List ℕ → List ℕ
huffman_name name =
    let encoded = hpack_huffman_encode name in
    if ltb (length encoded) 128
    then bit_or 128 (length encoded) ∷ encoded
    else bit_or 128 127 ∷ (length encoded - 127) % 256 ∷ encoded

unfoldable pub huffman_string : List ℕ → List ℕ
huffman_string text =
    let encoded = hpack_huffman_encode text in
    hpack_encode_integer (length encoded) 7 128 ++ encoded

-- The value of a header; `none` if the encoder writes past the `valueLen * 2` bytes allocated for it.
unfoldable pub header_value : List ℕ → Option (List ℕ)
unfolding huffman_string
header_value value =
    if leb (length (hpack_huffman_encode value)) (length value * 2)
    then some (huffman_string value)
    else none

unfoldable pub hpack_headers : RequestHeader → Written
unfolding header_value huffman_name
hpack_headers header = elim (find_entry request_header_static_table header.name) [
  | some index ↦ behind (bit_or 64 index ∷ []) (header_value header.value)
  | none ↦
      if leb (length (hpack_huffman_encode header.name)) 128
      then behind (0 ∷ huffman_name header.name) (header_value header.value)
      else Written.overflow
]

-- A literal without indexing, whose name is written as it is.
unfoldable pub raw_literal : RequestHeader → Written
raw_literal header =
    behind (0 ∷ (hpack_encode_integer (length header.name) 7 0 ++ header.name))
      (write_huffman_value header.value)

-- The scheme is compared by its name.
unfoldable pub hpack_pseudo_headers : RequestHeader → Written
unfolding str_case_eq raw_literal
hpack_pseudo_headers header =
    if str_case_eq header.name (codes ":method")
    then (if str_case_eq header.value (codes "GET")
        then Written.written (130 ∷ [])
        else if str_case_eq header.value (codes "POST")
        then Written.written (131 ∷ [])
        else raw_literal header)
    else if str_case_eq header.name (codes ":scheme")
    then (if str_case_eq header.name (codes "https")
        then Written.written (135 ∷ [])
        else if str_case_eq header.name (codes "http")
        then Written.written (134 ∷ [])
        else raw_literal header)
    else if str_case_eq header.name (codes ":authority")
    then behind (65 ∷ []) (write_huffman_value header.value)
    else if str_case_eq header.name (codes ":path")
    then behind (68 ∷ []) (write_huffman_value header.value)
    else Written.unknown_header

unfoldable pub is_connection : RequestHeader → Bool
unfolding str_case_eq
is_connection header = not header.is_pseudo && str_case_eq header.name (codes "connection")

-- The size of a header's part of the buffer. The factor 1.2 of the source is 6 / 5 here: for sizes
-- below 2 ^ 40 the product in floating point has the same whole part.
unfoldable pub estimated_size : RequestHeader → ℕ
unfolding str_case_eq
estimated_size header =
    let size = (length header.name + length header.value) * 6 / 5 + 10 in
    if str_case_eq header.name (codes "cookies") then size * 2 else size

unfoldable pub total_estimate : List RequestHeader → ℕ
unfolding estimated_size
total_estimate [] = 0
total_estimate (header ∷ headers) = estimated_size header + total_estimate headers

unfoldable pub calculate_hpack_buffer_size : List RequestHeader → ℕ
unfolding total_estimate
calculate_hpack_buffer_size headers = total_estimate headers + 512

unfoldable pub write_header : RequestHeader → Written
unfolding hpack_pseudo_headers hpack_headers
write_header header = if header.is_pseudo then hpack_pseudo_headers header else hpack_headers header

-- The loop of `buildHttp2HeadersFrame`, with the bytes that stand in the buffer of `size` bytes.
unfoldable pub header_rounds : ℕ → List ℕ → List RequestHeader → Written
unfolding write_header
header_rounds size buffer [] = Written.written buffer
header_rounds size buffer (header ∷ headers) =
    let skipped = header_rounds size buffer headers in
    let more : List ℕ → Written = λ bytes. header_rounds size (buffer ++ bytes) headers in
    if is_connection header then skipped else elim (write_header header) [
      | Written.written bytes ↦
          let next = more bytes in
          if leb (length (buffer ++ bytes)) size then next else Written.overflow
      | Written.unknown_header ↦ Written.unknown_header
      | Written.overflow ↦ Written.overflow
    ]

unfoldable pub header_block : List RequestHeader → Written
unfolding header_rounds calculate_hpack_buffer_size
header_block headers = header_rounds (calculate_hpack_buffer_size headers) [] headers
