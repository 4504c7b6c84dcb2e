-- ===== src/Http2/Requests/Raw.antt =====
-- A string that is written as it is, read back by the decoder.
use http_request_client.Prelude.{
  ℕ, ◌+◌, ◌-◌, ◌/◌, ◌%◌, ◌^◌, ◌<◌, ◌≡◌, ◌≢◌, refl, ap, ◌∙◌, inl, inr, List, [], ◌∷◌, ◌++◌, some,
  arith, ltb, ◌==◌, false, lt→leb, le→ltb, ltb→lt, Bool-cases, All, length, length-append, drop,
  take-append, drop-append, drop-append_at, get_or-drop, drop-cons_lt,
}
use http_request_client.Prelude.Bits.{bit_or-shifted}
use http_request_client.Hpack.Integer.{hpack_encode_integer, encode_rest}
use http_request_client.Hpack.Integer.RoundTrip.{decode-encode_integer}
use http_request_client.Hpack.Strings.{hpack_decode_string}
use http_request_client.Hpack.Strings.RoundTrip.{c_string_lem}

-- The first byte of a length carries no Huffman flag.
raw_first_byte :
    (v : ℕ) → (x : ℕ) × (tail : List ℕ) × (hpack_encode_integer v 7 0 ≡ x ∷ tail) × (x < 128)
unfolding hpack_encode_integer
raw_first_byte v = elim (Bool-cases (ltb v 127)) [
  | inl short ↦
      let small : v < 127 = ltb→lt v 127 short in
      (
        v,
        [],
        rw (short, bit_or-shifted 7 0 v (omega arith)) (ap (λ (t : ℕ). t ∷ []) (omega arith)),
        omega arith,
      )
  | inr long ↦ (127, encode_rest 10 (v - 127), rw long refl, omega arith)
]

pub decode-raw_string :
    (text pre rest : List ℕ)
    → All (λ c. c ≢ 0) text
    → length text < 2 ^ 35
    → hpack_decode_string
        (pre ++ (hpack_encode_integer (length text) 7 0 ++ (text ++ rest)))
        (length pre)
      ≡ (some text, length pre + length (hpack_encode_integer (length text) 7 0) + length text)
unfolding hpack_decode_string
decode-raw_string text pre rest nz few =
    let announced = hpack_encode_integer (length text) 7 0 in
    let whole = pre ++ (announced ++ (text ++ rest)) in
    let (x, tail, first, low) = raw_first_byte (length text) in
    let here : drop (length pre) whole ≡ x ∷ (tail ++ (text ++ rest)) =
      drop-append pre (announced ++ (text ++ rest)) ∙ ap (λ t. t ++ (text ++ rest)) first in
    let inside = drop-cons_lt whole (length pre) x (tail ++ (text ++ rest)) here in
    let flag : (x / 128 % 2 == 1) ≡ false = ground arith in
    let size : length whole ≡ length pre + (length announced + (length text + length rest)) =
      length-append pre (announced ++ (text ++ rest))
      ∙ ap (λ (t : ℕ). length pre + t)
          (length-append announced (text ++ rest)
            ∙ ap (λ (t : ℕ). length announced + t) (length-append text rest)) in
    rw
      (
        decode-encode_integer 7 0 (length text) (omega arith) pre (text ++ rest) few,
        lt→leb (length whole) (length pre) inside,
        get_or-drop whole (length pre) 0 x (tail ++ (text ++ rest)) here,
        flag,
        drop-append_at pre announced (text ++ rest),
        take-append text rest,
        c_string_lem text nz,
        le→ltb (length whole) (length pre + length announced + length text) (omega (arith, size)),
      )
      refl
