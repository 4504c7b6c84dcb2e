-- ===== src/Hpack/Huffman/Encoding.antt =====
-- The output of hpackHuffmanEncode as binary digits.
use Prim.Native.Nat.{bit_or}
use mathlib.Core.List.{foldl}
use native.Mathlib.Nat.{
  pow-suc, mul-le-mul_right, mod-lt, mul-add-div_right, div-eq_of_lt, pow-le-pow_right,
  mod-eq_of_lt,
}
use http_request_client.Prelude.{
  ℕ, zero, suc, ◌+◌, ◌-◌, ◌*◌, ◌/◌, ◌%◌, ◌^◌, ◌≤◌, ◌<◌, ◌≡◌, refl, sym, ap, ap₂, ◌∙◌, inl, inr,
  List, [], ◌∷◌, ◌++◌, append_assoc, append-nil, true, arith, ltb, leb, Bool-cases, leb→le, ltb→lt,
  All, replicate, all_below, all_below_sound,
}
use http_request_client.Prelude.Bits.{
  bits_of, bits_of_add, bits_of_mod, bits_of-shifted, bit_or-shifted, pow_add, pow_positive,
}
use http_request_client.Hpack.Huffman.{
  Encoder, write_byte, write_bytes, encode_char, finish_encoding, hpack_huffman_encode,
  empty_encoder,
}
use http_request_client.Hpack.Huffman.Table.{huffman_code}

-- The binary digits of a string of bytes.
abbrev pub byte_bits : List ℕ → List ℕ
byte_bits [] = []
byte_bits (b ∷ bytes) = bits_of 8 b ++ byte_bits bytes

-- The codes of a text, one after the other.
abbrev pub code_bits : List ℕ → List ℕ
code_bits [] = []
code_bits (c ∷ text) = bits_of (huffman_code c).bits (huffman_code c).code ++ code_bits text

-- Bytes whose code the 32-bit accumulator can take behind seven pending bits.
pub record IsEncodable (c : ℕ) : Type 0 where
  pub byte : c < 256
  pub short : (huffman_code c).bits ≤ 25

byte_bits-append : (xs ys : List ℕ) → byte_bits (xs ++ ys) ≡ byte_bits xs ++ byte_bits ys
byte_bits-append [] ys = refl
byte_bits-append (x ∷ xs) ys =
    ap (λ t. bits_of 8 x ++ t) (byte_bits-append xs ys)
    ∙ sym (append_assoc (bits_of 8 x) (byte_bits xs) (byte_bits ys))

-- What the encoder has written, and what it still holds.
abbrev written : Encoder → List ℕ
written e = byte_bits e.output ++ bits_of e.bits_used e.current_byte

record IsPending (e : Encoder) : Type 0 where
  fits : e.current_byte < 2 ^ e.bits_used

byte_bits-concat : (xs : List ℕ) (b : ℕ) → byte_bits (xs ++ b ∷ []) ≡ byte_bits xs ++ bits_of 8 b
byte_bits-concat xs b =
    byte_bits-append xs (b ∷ []) ∙ ap (λ t. byte_bits xs ++ t) (append-nil (bits_of 8 b))

-- The top byte leaves, the rest stays.
write_byte-written : (e : Encoder) → 8 ≤ e.bits_used → written (write_byte e) ≡ written e
write_byte-written e h = rw byte_bits-concat (
    append_assoc (byte_bits e.output) (bits_of 8 (top % 256)) (bits_of used (cur % 2 ^ used))
    ∙ ap (λ t. byte_bits e.output ++ t)
        (ap₂ (λ t u. t ++ u) (bits_of_mod 8 top) (bits_of_mod used cur)
          ∙ sym (bits_of_add 8 used cur)
          ∙ ap (λ t. bits_of t cur) width))
  where
    used : ℕ
    used = e.bits_used - 8

    cur : ℕ
    cur = e.current_byte

    top : ℕ
    top = cur / 2 ^ used

    width : 8 + used ≡ e.bits_used
    width = omega arith

write_bytes-written :
    (rounds : ℕ) (e : Encoder)
    → e.bits_used ≤ rounds
    → IsPending e
    → (written (write_bytes rounds e) ≡ written e)
      × IsPending (write_bytes rounds e)
      × ((write_bytes rounds e).bits_used < 8)
unfolding write_bytes
write_bytes-written zero e h p = ground arith
write_bytes-written (suc rounds) e h p = elim (Bool-cases (leb 8 e.bits_used)) [
  | inl more ↦
      let rest =
        write_bytes-written rounds (write_byte e) (omega arith)
          (record { fits = mod-lt e.current_byte (pow_positive (e.bits_used - 8)) }) in
      rw more (rest.0 ∙ write_byte-written e (leb→le _ _ more), rest.1, rest.2)
  | inr less ↦ rw less (refl, p, ground arith)
]

code_in_range : (c : ℕ) → c < 256 → ltb (huffman_code c).code (2 ^ (huffman_code c).bits) ≡ true
code_in_range c h =
    all_below_sound 256 (λ c. ltb (huffman_code c).code (2 ^ (huffman_code c).bits)) c table h
  where
    table : all_below 256 (λ c. ltb (huffman_code c).code (2 ^ (huffman_code c).bits)) ≡ true
    table = unfold all_below huffman_code in refl

-- The state just before the bytes of a character leave.
abbrev joined : Encoder → ℕ → Encoder
joined e c = record e {
  current_byte = bit_or (e.current_byte * 2 ^ (huffman_code c).bits % 2 ^ 32) (huffman_code c).code;
  bits_used = e.bits_used + (huffman_code c).bits;
}

-- `(currentByte << bits) | code` puts the code behind the pending bits, and loses none.
module _ (cur used bits code : ℕ) (pending : cur < 2 ^ used) (few : used < 8) (short : bits ≤ 25)
    (fits : code < 2 ^ bits) where
  shift_in : bit_or (cur * 2 ^ bits % 2 ^ 32) code ≡ cur * 2 ^ bits + code
  shift_in = rw (mod-eq_of_lt no_wrap) (bit_or-shifted bits cur code fits)
    where
      seven : 2 ^ used ≤ 2 ^ 7
      seven = pow-le-pow_right (omega arith) {j = 7} (omega arith)

      wide : 2 ^ bits ≤ 2 ^ 25
      wide = pow-le-pow_right (omega arith) short

      no_wrap : cur * 2 ^ bits < 2 ^ 32
      no_wrap =
          let a : cur * 2 ^ bits ≤ 127 * 2 ^ bits =
            mul-le-mul_right (2 ^ bits) (omega (arith, seven)) in
          omega (arith, wide)

  shift_in_fits : cur * 2 ^ bits + code < 2 ^ (used + bits)
  shift_in_fits =
      let a : (cur + 1) * 2 ^ bits ≤ 2 ^ used * 2 ^ bits =
        mul-le-mul_right (2 ^ bits) (omega arith) in
      rw pow_add (omega arith)

  shift_in_bits :
      bits_of (used + bits) (cur * 2 ^ bits + code) ≡ bits_of used cur ++ bits_of bits code
  shift_in_bits =
      bits_of_add used bits (cur * 2 ^ bits + code)
      ∙ ap₂ (λ t u. bits_of used t ++ u) high (bits_of-shifted bits cur code)
    where
      high : (cur * 2 ^ bits + code) / 2 ^ bits ≡ cur
      high = mul-add-div_right (pow_positive bits) cur code ∙ rw (div-eq_of_lt fits) (omega arith)

-- One character adds its code to what was written, and leaves fewer than eight bits pending.
encode_char-written :
    (e : Encoder) (c : ℕ)
    → IsPending e
    → e.bits_used < 8
    → IsEncodable c
    → (written (encode_char e c) ≡ written e ++ bits_of (huffman_code c).bits (huffman_code c).code)
      × IsPending (encode_char e c)
      × ((encode_char e c).bits_used < 8)
unfolding encode_char
encode_char-written e c p few ok =
    let bits = (huffman_code c).bits in
    let code = (huffman_code c).code in
    let range = ltb→lt code (2 ^ bits) (code_in_range c ok.byte) in
    let value = shift_in e.current_byte e.bits_used bits code p.fits few ok.short range in
    let out = write_bytes-written (e.bits_used + bits) (joined e c) (omega arith) (record {
      fits =
          rw value (shift_in_fits e.current_byte e.bits_used bits code p.fits few ok.short range);
    }) in
    (
      out.0
          ∙ ap (λ t. byte_bits e.output ++ bits_of (e.bits_used + bits) t) value
          ∙ ap (λ t. byte_bits e.output ++ t)
              (shift_in_bits e.current_byte e.bits_used bits code p.fits few ok.short range)
          ∙ sym (
              append_assoc (byte_bits e.output) (bits_of e.bits_used e.current_byte)
                (bits_of bits code)),
      out.1,
      out.2,
    )

encode_text-written :
    (text : List ℕ) (e : Encoder)
    → IsPending e
    → e.bits_used < 8
    → All IsEncodable text
    → (written (foldl encode_char e text) ≡ written e ++ code_bits text)
      × IsPending (foldl encode_char e text)
      × ((foldl encode_char e text).bits_used < 8)
encode_text-written [] e p few ok = (sym (append-nil (written e)), p, few)
encode_text-written (c ∷ text) e p few ok =
    let (now, p', few') = encode_char-written e c p few ok.0 in
    let rest = encode_text-written text (encode_char e c) p' few' ok.1 in
    (
      rest.0 ∙ ap (λ t. t ++ code_bits text) now ∙ append_assoc (written e) _ (code_bits text),
      rest.1,
      rest.2,
    )

replicate-concat : (k : ℕ) → replicate k 1 ++ 1 ∷ [] ≡ replicate {A = ℕ} (suc k) 1
replicate-concat zero = refl
replicate-concat (suc k) = ap (◌∷◌ 1) (replicate-concat k)

ones : (k : ℕ) → bits_of k (2 ^ k - 1) ≡ replicate k 1
ones zero = refl
ones (suc k) =
    ap₂ (λ t u. bits_of k t ++ u ∷ []) (omega (arith, pow-suc 2 k))
      (omega (arith, pow-suc 2 k, pow_positive k))
    ∙ ap (λ t. t ++ 1 ∷ []) (ones k)
    ∙ replicate-concat k

-- The last byte is the pending bits and ones.
padded_byte :
    (cur used : ℕ)
    → cur < 2 ^ used
    → used < 8
    → bits_of 8 (bit_or (cur * 2 ^ (8 - used) % 2 ^ 32) (2 ^ (8 - used) - 1) % 256)
      ≡ bits_of used cur ++ replicate (8 - used) 1
padded_byte cur used fits few =
    bits_of_mod 8 last
    ∙ ap (bits_of 8) (shift_in cur used spare (2 ^ spare - 1) fits few (omega arith) below)
    ∙ ap (λ t. bits_of t (cur * 2 ^ spare + (2 ^ spare - 1))) width
    ∙ shift_in_bits cur used spare (2 ^ spare - 1) fits few (omega arith) below
    ∙ ap (λ t. bits_of used cur ++ t) (ones spare)
  where
    spare : ℕ
    spare = 8 - used

    last : ℕ
    last = bit_or (cur * 2 ^ spare % 2 ^ 32) (2 ^ spare - 1)

    below : 2 ^ spare - 1 < 2 ^ spare
    below = omega (arith, pow_positive spare)

    width : 8 ≡ used + spare
    width = omega arith

finish_encoding-bits :
    (e : Encoder)
    → IsPending e
    → e.bits_used < 8
    → (p : ℕ) × (p < 8) × (byte_bits (finish_encoding e) ≡ written e ++ replicate p 1)
unfolding finish_encoding
finish_encoding-bits e p few = elim (Bool-cases (ltb 0 e.bits_used)) [
  | inl some_bits ↦
      let positive = ltb→lt 0 e.bits_used some_bits in
      (
        8 - e.bits_used,
        omega arith,
        rw some_bits (
            byte_bits-concat e.output (
              bit_or (e.current_byte * 2 ^ (8 - e.bits_used) % 2 ^ 32) (2 ^ (8 - e.bits_used) - 1)
              % 256)
            ∙ ap (λ t. byte_bits e.output ++ t) (padded_byte e.current_byte e.bits_used p.fits few)
            ∙ sym (
                append_assoc (byte_bits e.output) (bits_of e.bits_used e.current_byte)
                  (replicate (8 - e.bits_used) 1))),
      )
  | inr no_bits ↦
      let empty : e.bits_used ≡ 0 = ground arith in
      (
        0,
        omega arith,
        rw (no_bits, empty)
            (sym (append-nil (byte_bits e.output ++ []) ∙ append-nil (byte_bits e.output))),
      )
]

-- The digits of the output are the codes of the characters in order, then fewer than eight ones,
-- for every text whose codes have at most 25 bits.
pub encode-code_bits :
    (text : List ℕ)
    → All IsEncodable text
    → (p : ℕ) × (p < 8) × (byte_bits (hpack_huffman_encode text) ≡ code_bits text ++ replicate p 1)
unfolding hpack_huffman_encode
encode-code_bits text ok =
    let (all, p, few) =
      encode_text-written text empty_encoder (record { fits = omega arith }) (omega arith) ok in
    let (n, small, last) = finish_encoding-bits (foldl encode_char empty_encoder text) p few in
    (n, small, last ∙ ap (λ t. t ++ replicate n 1) all)
