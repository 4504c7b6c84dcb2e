-- ===== src/Http2/Requests/Blocks.antt =====
-- The header block of a request, read back by the decoder of header blocks.
use http_request_client.Prelude.{
  ◌⊎◌, Bool, ℕ, ◌+◌, leb, le→leb, append-nil, append_assoc, length-append, ◌≤◌, ◌≡◌, refl, sym, ap,
  ◌∙◌, inl, inr, List, [], ◌∷◌, ◌++◌, some, true, false, ◌==◌, length, All, arith, Bool-cases,
  if_true, if_false, ==_iff,
}
use http_request_client.Errors.{Error}
use http_request_client.Hpack.Table.{HpackContext}
use http_request_client.Hpack.Block.{Decoding, ResponseHeader, decode_headers_frame}
use http_request_client.Request.Order.{RequestHeader}
use http_request_client.Prelude.Text.{codes, str_case_eq}
use http_request_client.Http2.Requests.{
  Written, calculate_hpack_buffer_size, estimated_size, header_block, header_rounds, hpack_headers,
  is_connection, total_estimate, write_header,
}
use http_request_client.Http2.Requests.Pseudo.{IsWritable, is_known, pseudo-IsWritable}
use http_request_client.Http2.Requests.Reading.{IsSendable, decoded_header, decoded_name}
use http_request_client.Http2.Requests.Writing.{field-IsFieldWritten}
use http_request_client.Http2.Requests.Loop.{
  Meant, IsBlockRead, at_end, nothing-IsBlockRead, header-IsBlockRead, connection-IsBlockRead,
}

real-IsWritable : (h : RequestHeader) → IsSendable h → IsWritable h (hpack_headers h)
real-IsWritable h sendable =
    let field = field-IsFieldWritten h sendable in
    record {
      bytes = field.bytes;
      written = field.written;
      size = field.size;
      readable = record {
        decoded = decoded_header h;
        meant = record { name = decoded_name h; value = inl refl };
        filled = field.filled;
        reads = λ pre rest payload s same at_pre. field.reads pre rest payload s same at_pre;
      };
    }

-- A header with texts that can be sent; a pseudo header is one of the four that are known.
pub record IsSent (h : RequestHeader) : Type 0 where
  pub known : (h.is_pseudo ≡ false) ⊎ (is_known h.name ≡ true)
  pub sendable : IsSendable h

contradiction : (let b : Bool = true in b) ≡ false → ⊥
contradiction h = cc

header-IsWritable : (h : RequestHeader) → IsSent h → IsWritable h (write_header h)
unfolding write_header
header-IsWritable h sent = elim (Bool-cases h.is_pseudo) [
  | inr real ↦
      let one = real-IsWritable h sent.sendable in
      record {
        bytes = one.bytes;
        written = if_false h.is_pseudo _ _ real ∙ one.written;
        size = one.size;
        readable = one.readable;
      }
  | inl pseudo ↦
      let known : is_known h.name ≡ true = elim sent.known [
        | inl real ↦ absurd (contradiction (sym pseudo ∙ real))
        | inr k ↦ k
      ] in
      let one = pseudo-IsWritable h sent.sendable pseudo known in
      record {
        bytes = one.bytes;
        written = if_true h.is_pseudo _ _ pseudo ∙ one.written;
        size = one.size;
        readable = one.readable;
      }
]

-- The place that is reckoned for a header is enough.
estimate_enough : (h : RequestHeader) → length h.name + length h.value + 8 ≤ estimated_size h
unfolding estimated_size
estimate_enough h = elim (Bool-cases (str_case_eq h.name (codes "cookies"))) [
  | inl cookies ↦ rw cookies (omega arith)
  | inr other ↦ rw other (omega arith)
]

-- The headers behind those that stand in the buffer.
record IsRest (size : ℕ) (buffer : List ℕ) (hs : List RequestHeader) : Type 0 where
  bytes : List ℕ
  written : header_rounds size buffer hs ≡ Written.written (buffer ++ bytes)
  read : IsBlockRead hs bytes

header_rounds-IsRest :
    (hs : List RequestHeader) (size : ℕ) (buffer : List ℕ)
    → All IsSent hs
    → length buffer + total_estimate hs ≤ size
    → IsRest size buffer hs
unfolding header_rounds total_estimate
header_rounds-IsRest [] size buffer sent room = record {
  bytes = [];
  written = ap Written.written (sym (append-nil buffer));
  read = nothing-IsBlockRead;
}
header_rounds-IsRest (h ∷ hs) size buffer (first, sent) room = elim (Bool-cases (is_connection h)) [
  | inl skipped ↦
      let rest = header_rounds-IsRest hs size buffer sent (omega arith) in
      record {
        bytes = rest.bytes;
        written = if_true (is_connection h) _ _ skipped ∙ rest.written;
        read = connection-IsBlockRead h hs rest.bytes skipped rest.read;
      }
  | inr other ↦
      let one = header-IsWritable h first in
      let grown = length-append buffer one.bytes in
      let place = estimate_enough h in
      let rest =
        header_rounds-IsRest hs size (buffer ++ one.bytes) sent
          (omega (arith, grown, place, one.size)) in
      let fits : leb (length (buffer ++ one.bytes)) size ≡ true =
        le→leb _ _ (omega (arith, grown, place, one.size)) in
      record {
        bytes = one.bytes ++ rest.bytes;
        written =
            rw (header_rounds, other, one.written, fits)
              (rest.written ∙ ap Written.written (append_assoc buffer one.bytes rest.bytes));
        read = header-IsBlockRead h hs one.bytes rest.bytes other one.readable rest.read;
      }
]

-- The headers of a block and the error, as the decoder gives them back.
pub record IsRoundTrip (hs : List RequestHeader) (error : Error) (ctx : HpackContext) : Type 0 where
  pub bytes : List ℕ
  pub headers : List ResponseHeader
  pub written : header_block hs ≡ Written.written bytes
  pub read : (decode_headers_frame (some []) error bytes ctx).headers ≡ some headers
  pub no_error : (decode_headers_frame (some []) error bytes ctx).error ≡ error
  pub meant : Meant hs headers

-- The header block of at most 64 headers is written within its buffers and without an error, if the
-- pseudo headers are the four that are known and no name and no value has the byte 0 or a byte that the
-- Huffman code cannot carry, or is longer in that code, and names take less than 127 bytes and values
-- less than 2 ^ 35 in it. The decoder of header blocks reads it, with any dynamic table, without a new
-- error, and gets the headers but "connection", in their order, with the same values and the same names
-- up to case; the value of a pseudo header is the same up to case.
pub decode_headers_frame-header_block :
    (hs : List RequestHeader) (error : Error) (ctx : HpackContext)
    → All IsSent hs
    → length hs ≤ 64
    → IsRoundTrip hs error ctx
unfolding decode_headers_frame header_block calculate_hpack_buffer_size
decode_headers_frame-header_block hs error ctx sent few =
    let block = header_rounds-IsRest hs (calculate_hpack_buffer_size hs) [] sent (omega arith) in
    let bytes = block.bytes in
    let start : Decoding = record { pos = 0; ctx = ctx; headers = some []; error = error } in
    let read =
      block.read.reads [] bytes [] (length bytes) start refl refl refl
        (omega (arith, block.read.no_more_than)) block.read.few in
    record {
      bytes = bytes;
      headers = block.read.decoded;
      written = block.written;
      read = elim (Bool-cases (length bytes == 0)) [
        | inl e ↦
            rw (decode_headers_frame, e)
              (sym (
                  ap (λ (t : Decoding). t.headers)
                    (at_end (length bytes) bytes start (sym ((==_iff (length bytes) 0).0 e))))
                ∙ read.0)
        | inr e ↦ rw (decode_headers_frame, e) read.0
      ];
      no_error = elim (Bool-cases (length bytes == 0)) [
        | inl e ↦ rw (decode_headers_frame, e) refl
        | inr e ↦ rw (decode_headers_frame, e) read.1
      ];
      meant = block.read.meant;
    }
