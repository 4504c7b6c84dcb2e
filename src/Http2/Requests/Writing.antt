-- ===== src/Http2/Requests/Writing.antt =====
-- The bytes that hpackHeaders writes, their number, and what the decoder makes of them.
use http_request_client.Prelude.{
  ℕ, zero, suc, ◌*◌, Bool-cases, ◌+◌, ◌-◌, ◌/◌, ◌^◌, ◌≤◌, ◌<◌, ◌≡◌, refl, ap, ◌∙◌, inl, inr, List,
  [], ◌∷◌, ◌++◌, none, some, true, ltb, leb, length, arith, Option-cases, if_true, length-append,
  lt→leb, lt→ltb, le→leb, if_true,
}
use native.Mathlib.Nat.{pow-suc}
use http_request_client.Prelude.Bits.{bit_or-shifted}
use http_request_client.Hpack.Huffman.{hpack_huffman_encode}
use http_request_client.Hpack.Integer.{encode_rest, hpack_encode_integer}
use http_request_client.Hpack.Strings.{huffman_bytes}
use http_request_client.Hpack.Block.{Decoding}
use http_request_client.Request.Order.{RequestHeader}
use http_request_client.Http2.Requests.{
  find_entry, hpack_headers, Written, header_value, request_header_static_table,
}
use http_request_client.Http2.Requests.Lookup.{request_header_static_table-IsFound}
use http_request_client.Http2.Requests.Reading.{
  IsFieldRead, IsSendable, IsText, decoded_header, huffman_name_lem, huffman_string_lem, plain_read,
  static_read,
}

-- The length before a string takes six bytes at most.
rest_size : (k fuel v : ℕ) → v < 128 ^ suc k → length (encode_rest fuel v) ≤ suc k
unfolding encode_rest
rest_size k zero v h = omega arith
rest_size zero (suc fuel) v h = rw (lt→leb 128 v (omega arith)) (omega arith)
rest_size (suc k) (suc fuel) v h =
    let power = pow-suc 128 (suc k) in
    let smaller : v / 128 < 128 ^ suc k = omega (arith, power, h) in
    elim (Bool-cases (leb 128 v)) [
      | inl more ↦ rw more (omega (arith, rest_size k fuel (v / 128) smaller))
      | inr last ↦ rw last (omega arith)
    ]

pub huffman_bytes_size :
    (text : List ℕ) → IsText text → length (huffman_bytes text) ≤ length text + 6
unfolding huffman_bytes hpack_encode_integer
huffman_bytes_size [] t = omega arith
huffman_bytes_size (c ∷ cs) t =
    let encoded = hpack_huffman_encode (c ∷ cs) in
    let n = length encoded in
    elim (Bool-cases (ltb n 127)) [
      | inl small ↦ rw small (omega (arith, t.compact))
      | inr large ↦ rw large (
          omega (
            arith,
            t.compact,
            length-append (encode_rest 10 (n - (2 ^ 7 - 1))) encoded,
            rest_size 4 10 (n - (2 ^ 7 - 1)) (omega (arith, t.short)),
          ))
    ]

huffman_name_size :
    (text : List ℕ)
    → IsText text
    → length (hpack_huffman_encode text) < 127
    → length (huffman_bytes text) ≤ length text + 1
unfolding huffman_bytes hpack_encode_integer
huffman_name_size [] t h = omega arith
huffman_name_size (c ∷ cs) t h =
    rw (lt→ltb (length (hpack_huffman_encode (c ∷ cs))) 127 h) (omega (arith, t.compact))

-- A header that is written, and how the decoder reads it.
pub record IsFieldWritten (h : RequestHeader) : Type 0 where
  pub bytes : List ℕ
  pub written : hpack_headers h ≡ Written.written bytes
  pub filled : 0 < length bytes
  pub size : length bytes ≤ length h.name + length h.value + 8
  pub reads :
      (pre rest payload : List ℕ) (s : Decoding)
      → payload ≡ pre ++ (bytes ++ rest)
      → s.pos ≡ length pre
      → IsFieldRead payload s (decoded_header h) (length (pre ++ bytes))

header_value-fits :
    (value : List ℕ) → IsText value → header_value value ≡ some (huffman_bytes value)
unfolding header_value
header_value-fits value t =
    if_true (leb (length (hpack_huffman_encode value)) (length value * 2)) _ _
      (le→leb _ _ (omega (arith, t.compact)))
    ∙ ap some (huffman_string_lem value)

plain-IsFieldWritten :
    (h : RequestHeader)
    → IsSendable h
    → find_entry request_header_static_table h.name ≡ none
    → IsFieldWritten h
unfolding hpack_headers
plain-IsFieldWritten h sendable e =
    let named = huffman_bytes h.name in
    let valued = huffman_bytes h.value in
    let room : leb (length (hpack_huffman_encode h.name)) 128 ≡ true =
      le→leb _ _ (omega (arith, sendable.short_name)) in
    record {
      bytes = 0 ∷ (named ++ valued);
      written =
          rw
            (
              hpack_headers,
              e,
              room,
              header_value-fits h.value sendable.value,
              huffman_name_lem h.name sendable.short_name,
            )
            refl;
      filled = omega arith;
      size = omega (
        arith,
        length-append named valued,
        huffman_bytes_size h.value sendable.value,
        huffman_name_size h.name sendable.name sendable.short_name,
      );
      reads = λ pre rest payload s same at_pre.
          rw e
            (plain_read pre rest h.name h.value payload s sendable.name sendable.value same at_pre);
    }

static-IsFieldWritten :
    (h : RequestHeader) (index : ℕ)
    → IsSendable h
    → find_entry request_header_static_table h.name ≡ some index
    → IsFieldWritten h
unfolding hpack_headers
static-IsFieldWritten h index sendable e =
    let p = request_header_static_table-IsFound h.name index e in
    let valued = huffman_bytes h.value in
    record {
      bytes = (64 + index) ∷ valued;
      written =
          rw (hpack_headers, e, header_value-fits h.value sendable.value)
            (ap (λ (b : ℕ). Written.written (b ∷ valued))
              (bit_or-shifted 6 1 index (omega (arith, p.high))));
      filled = omega arith;
      size = omega (arith, huffman_bytes_size h.value sendable.value);
      reads = λ pre rest payload s same at_pre.
          rw e
            (static_read pre rest h.value index payload s sendable.value p.low p.high same at_pre);
    }

pub field-IsFieldWritten : (h : RequestHeader) → IsSendable h → IsFieldWritten h
field-IsFieldWritten h sendable =
    elim (Option-cases (find_entry request_header_static_table h.name)) [
      | inl e ↦ plain-IsFieldWritten h sendable e
      | inr (index, e) ↦ static-IsFieldWritten h index sendable e
    ]
