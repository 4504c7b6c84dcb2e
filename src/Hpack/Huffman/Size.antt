-- ===== src/Hpack/Huffman/Size.antt =====
-- The number of bytes that hpackHuffmanEncode writes, and the buffers of its callers.
use Prim.Native.Nat.{bit_or}
use mathlib.Core.List.{foldl}
use http_request_client.Prelude.{
  ℕ, zero, suc, ◌+◌, ◌-◌, ◌*◌, ◌/◌, ◌%◌, ◌^◌, ◌∙◌, ltb→lt, ◌≤◌, ◌<◌, ◌≡◌, refl, inl, inr, List, [],
  ◌∷◌, arith, leb, ltb, Bool-cases, leb→le, length, length-append,
}
use http_request_client.Hpack.Huffman.{
  Encoder, empty_encoder, write_byte, write_bytes, encode_char, finish_encoding,
  hpack_huffman_encode,
}
use http_request_client.Hpack.Huffman.Table.{huffman_code}

-- The number of bits of the codes of a text.
abbrev pub total_bits : List ℕ → ℕ
total_bits [] = 0
total_bits (c ∷ text) = (huffman_code c).bits + total_bits text

-- The bits written and pending.
abbrev held : Encoder → ℕ
held e = 8 * length e.output + e.bits_used

abbrev top : Encoder → ℕ
top e = e.current_byte / 2 ^ (e.bits_used - 8) % 256

abbrev last : Encoder → ℕ
last e = bit_or (e.current_byte * 2 ^ (8 - e.bits_used) % 2 ^ 32) (2 ^ (8 - e.bits_used) - 1) % 256

write_bytes-held :
    (rounds : ℕ) (e : Encoder)
    → e.bits_used ≤ rounds
    → (held (write_bytes rounds e) ≡ held e) × ((write_bytes rounds e).bits_used < 8)
unfolding write_bytes
write_bytes-held zero e h = (refl, omega arith)
write_bytes-held (suc rounds) e h = elim (Bool-cases (leb 8 e.bits_used)) [
  | inl more ↦
      let rest = write_bytes-held rounds (write_byte e) (omega arith) in
      rw more (omega (arith, rest.0, leb→le _ _ more, length-append e.output (top e ∷ [])), rest.1)
  | inr less ↦ rw less (refl, ground arith)
]

encode_char-held :
    (e : Encoder) (c : ℕ)
    → e.bits_used < 8
    → (held (encode_char e c) ≡ held e + (huffman_code c).bits) × ((encode_char e c).bits_used < 8)
unfolding encode_char
encode_char-held e c h =
    let all = write_bytes-held (e.bits_used + (huffman_code c).bits) _ (omega arith) in
    (all.0 ∙ omega arith, all.1)

encode_text-held :
    (text : List ℕ) (e : Encoder)
    → e.bits_used < 8
    → (held (foldl encode_char e text) ≡ held e + total_bits text)
      × ((foldl encode_char e text).bits_used < 8)
encode_text-held [] e h = (omega arith, h)
encode_text-held (c ∷ text) e h =
    let now = encode_char-held e c h in
    let rest = encode_text-held text (encode_char e c) now.1 in
    (omega (arith, now.0, rest.0), rest.1)

finish_encoding-held :
    (e : Encoder)
    → e.bits_used < 8
    → (held e ≤ 8 * length (finish_encoding e)) × (8 * length (finish_encoding e) < held e + 8)
unfolding finish_encoding
finish_encoding-held e h = elim (Bool-cases (ltb 0 e.bits_used)) [
  | inl some_bits ↦ rw some_bits (
      let n = length-append e.output (last e ∷ []) in
      let p = ltb→lt 0 e.bits_used some_bits in (omega arith, omega arith))
  | inr no_bits ↦ rw no_bits (let z : e.bits_used ≡ 0 = ground arith in (omega arith, omega arith))
]

-- The output of the encoder has as many bytes as it takes to hold the codes of the text, for every
-- text.
pub length-encode :
    (text : List ℕ)
    → (total_bits text ≤ 8 * length (hpack_huffman_encode text))
      × (8 * length (hpack_huffman_encode text) < total_bits text + 8)
unfolding hpack_huffman_encode
length-encode text =
    let all = encode_text-held text empty_encoder (omega arith) in
    let out = finish_encoding-held (foldl encode_char empty_encoder text) all.1 in
    (omega (arith, all.0, out.0), omega (arith, all.0, out.1))
