-- ===== src/Hpack/Strings/RoundTrip.antt =====
-- hpackDecodeString on the output of writeHuffmanValue.
use http_request_client.Prelude.{
  ℕ, ◌+◌, ◌*◌, ◌≤◌, leb, le→leb, if_true, ◌-◌, ◌/◌, ◌%◌, ◌^◌, ◌<◌, ◌≡◌, ◌≢◌, refl, ap, ap₂, ◌∙◌,
  inl, inr, List, [], ◌∷◌, ◌++◌, append_assoc, some, arith, ltb, ◌==◌, true, lt→leb, le→ltb,
  Bool-cases, All, length, length-append, drop, take-append, drop-append, drop-append_at,
  get_or-drop, drop-cons_lt,
}
use http_request_client.Prelude.Bits.{bit_or-shifted}
use http_request_client.Hpack.Huffman.{hpack_huffman_encode, hpack_huffman_decode, huffman_root}
use http_request_client.Hpack.Huffman.Encoding.{IsEncodable}
use http_request_client.Hpack.Huffman.Size.{total_bits, length-encode}
use http_request_client.Hpack.Huffman.RoundTrip.{huffman_decode-encode}
use http_request_client.Hpack.Integer.{hpack_encode_integer, encode_rest}
use http_request_client.Hpack.Integer.RoundTrip.{decode-encode_integer}
use http_request_client.Hpack.Strings.{
  c_string, huffman_bytes, write_huffman_value, hpack_decode_string,
}

pub c_string_lem : (text : List ℕ) → All (λ c. c ≢ 0) text → c_string text ≡ text
unfolding c_string
c_string_lem [] ok = refl
c_string_lem (c ∷ text) ok = ground (arith, c_string_lem text ok.1)

-- The first byte of a length carries the Huffman flag.
first_byte :
    (v : ℕ)
    → (x : ℕ) × (tail : List ℕ) × (hpack_encode_integer v 7 128 ≡ (128 + x) ∷ tail) × (x < 128)
unfolding hpack_encode_integer
first_byte v = elim (Bool-cases (ltb v 127)) [
  | inl short ↦
      let small : v < 127 = ground arith in
      (
        v,
        [],
        rw (short, bit_or-shifted 7 1 v (omega arith)) (ap (λ (t : ℕ). t ∷ []) (omega arith)),
        omega arith,
      )
  | inr long ↦ (127, encode_rest 10 (v - 127), rw long refl, omega arith)
]

-- A string that is announced as Huffman-coded, with its length and its bytes in place.
module _ (pre encoded rest : List ℕ) (few : length encoded < 2 ^ 35) where
  abbrev announced : List ℕ
  announced = hpack_encode_integer (length encoded) 7 128

  abbrev whole : List ℕ
  whole = pre ++ (announced ++ (encoded ++ rest))

  decode_announced : hpack_decode_string whole (length pre) ≡ (
    some (c_string (hpack_huffman_decode encoded)),
    length pre + length announced + length encoded,
  )
  unfolding hpack_decode_string
  decode_announced =
      let (x, tail, first, low) = first_byte (length encoded) in
      let here : drop (length pre) whole ≡ (128 + x) ∷ (tail ++ (encoded ++ rest)) =
        drop-append pre (announced ++ (encoded ++ rest)) ∙ ap (λ t. t ++ (encoded ++ rest)) first in
      let inside = drop-cons_lt whole (length pre) (128 + x) (tail ++ (encoded ++ rest)) here in
      let flag : ((128 + x) / 128 % 2 == 1) ≡ true = ground arith in
      let size : length whole ≡ length pre + (length announced + (length encoded + length rest)) =
        length-append pre (announced ++ (encoded ++ rest))
        ∙ ap (λ (t : ℕ). length pre + t)
            (length-append announced (encoded ++ rest)
              ∙ ap (λ (t : ℕ). length announced + t) (length-append encoded rest)) in
      rw
        (
          decode-encode_integer 7 1 (length encoded) (omega arith) pre (encoded ++ rest) few,
          lt→leb (length whole) (length pre) inside,
          get_or-drop whole (length pre) 0 (128 + x) (tail ++ (encoded ++ rest)) here,
          flag,
          drop-append_at pre announced (encoded ++ rest),
          take-append encoded rest,
          le→ltb (length whole) (length pre + length announced + length encoded)
              (omega (arith, size)),
        )
        refl

pub decode-huffman_bytes :
    (value pre rest : List ℕ)
    → All IsEncodable value
    → All (λ c. c ≢ 0) value
    → length (hpack_huffman_encode value) < 2 ^ 35
    → hpack_decode_string (pre ++ (huffman_bytes value ++ rest)) (length pre)
      ≡ (some value, length pre + length (huffman_bytes value))
unfolding huffman_bytes
decode-huffman_bytes [] pre rest ok nz few =
    rw no_length at (decode_announced pre [] rest (omega arith))
    ∙ ap₂ (λ t (u : ℕ). (some t, u)) nothing (omega arith)
  where
    no_length : hpack_encode_integer 0 7 128 ≡ 128 ∷ []
    no_length = unfold hpack_encode_integer in refl

    nothing : c_string (hpack_huffman_decode []) ≡ []
    nothing = unfold c_string hpack_huffman_decode huffman_root in refl
decode-huffman_bytes (c ∷ cs) pre rest ok nz few =
    let encoded = hpack_huffman_encode (c ∷ cs) in
    let length_bytes = hpack_encode_integer (length encoded) 7 128 in
    ap (λ t. hpack_decode_string (pre ++ t) (length pre)) (append_assoc length_bytes encoded rest)
    ∙ decode_announced pre encoded rest few
    ∙ ap₂ (λ t (u : ℕ). (some t, u))
        (ap c_string (huffman_decode-encode (c ∷ cs) ok) ∙ c_string_lem (c ∷ cs) nz)
        (omega (arith, length-append length_bytes encoded))

-- A value whose codes take the buffer at most is written.
pub write_huffman_value-written :
    (value : List ℕ)
    → total_bits value ≤ 16 * length value + 80
    → write_huffman_value value ≡ some (huffman_bytes value)
unfolding write_huffman_value huffman_bytes
write_huffman_value-written [] h = refl
write_huffman_value-written (c ∷ cs) h =
    if_true (leb (length (hpack_huffman_encode (c ∷ cs))) (length (c ∷ cs) * 2 + 10)) _ _
      (le→leb _ _ (omega (arith, length-encode (c ∷ cs))))

-- Values without zero bytes, whose codes have at most 25 bits each and at most 16 on average, with 80
-- more in all, and whose encoding has fewer than 2 ^ 35 bytes, are written within the buffer, and the
-- decoder gives them back and stops right behind them, wherever they stand.
pub decode-write_value :
    (value pre rest : List ℕ)
    → All IsEncodable value
    → All (λ c. c ≢ 0) value
    → total_bits value ≤ 16 * length value + 80
    → length (hpack_huffman_encode value) < 2 ^ 35
    → (bytes : List ℕ) × (write_huffman_value value ≡ some bytes)
      × (hpack_decode_string (pre ++ (bytes ++ rest)) (length pre)
          ≡ (some value, length pre + length bytes))
decode-write_value value pre rest ok nz compact few = (
  huffman_bytes value,
  write_huffman_value-written value compact,
  decode-huffman_bytes value pre rest ok nz few,
)
