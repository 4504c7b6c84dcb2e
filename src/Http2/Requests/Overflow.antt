-- ===== src/Http2/Requests/Overflow.antt =====
-- When the buffers of hpackHeaders are too small.
use Prim.Native.Nat.{bit_or}
use http_request_client.Prelude.{
  ℕ, ◌*◌, ◌<◌, ◌≡◌, ◌⊎◌, ◌↔◌, refl, inl, inr, List, [], ◌∷◌, none, some, Bool, true, false, leb,
  if◌then◌else◌, length, arith, Bool-cases, Option-cases,
}
use http_request_client.Hpack.Huffman.{hpack_huffman_encode}
use http_request_client.Hpack.Huffman.Size.{total_bits, length-encode}
use http_request_client.Request.Order.{RequestHeader}
use http_request_client.Http2.Requests.{
  Written, behind, find_entry, header_value, hpack_headers, huffman_name, huffman_string,
  request_header_static_table,
}

behind-cases :
    (first value : List ℕ) (fits : Bool)
    → (behind first (if fits then some value else none) ≡ Written.overflow) ↔ (fits ≡ false)
behind-cases first value true = (λ h. absurd cc, λ h. absurd cc)
behind-cases first value false = (λ h. refl, λ h. refl)

-- A text outgrows a buffer of `room` bytes just if its codes have more bits.
outgrows :
    (text : List ℕ) (room : ℕ)
    → (leb (length (hpack_huffman_encode text)) room ≡ false) ↔ (8 * room < total_bits text)
outgrows text room = (
  λ h.
      (let n : room < length (hpack_huffman_encode text) = ground arith in
        omega (arith, n, length-encode text)),
  λ h.
      (let n : room < length (hpack_huffman_encode text) = omega (arith, h, length-encode text) in
        ground arith),
)

value_overflows :
    (first value : List ℕ)
    → (behind first (header_value value) ≡ Written.overflow)
      ↔ (16 * length value < total_bits value)
unfolding header_value
value_overflows first value =
    let fits = leb (length (hpack_huffman_encode value)) (length value * 2) in
    let cases = behind-cases first (huffman_string value) fits in
    let codes = outgrows value (length value * 2) in
    (λ h. omega (arith, codes.0 (cases.0 h)), λ h. cases.1 (codes.1 (omega (arith, h))))

-- The codes of a header that do not fit the buffers.
pub OutgrowsBuffers : RequestHeader → Type 0
OutgrowsBuffers h =
    (16 * length h.value < total_bits h.value)
    ⊎ ((find_entry request_header_static_table h.name ≡ none) × (1024 < total_bits h.name))

-- The encoder writes past a buffer of `hpackHeaders` just if the codes of the value have more than 16
-- bits on average, or the name is not in the static table and its codes have more than 1024 bits.
pub hpack_headers_overflows :
    (h : RequestHeader) → (hpack_headers h ≡ Written.overflow) ↔ OutgrowsBuffers h
unfolding hpack_headers OutgrowsBuffers
hpack_headers_overflows h = elim (Option-cases (find_entry request_header_static_table h.name)) [
  | inr (index, e) ↦
      let value = value_overflows (bit_or 64 index ∷ []) h.value in
      rw (hpack_headers, e)
        (λ o. inl (value.0 o), elim [ inl long ↦ value.1 long | inr (absent, long) ↦ absurd cc ])
  | inl e ↦
      let value = value_overflows (0 ∷ huffman_name h.name) h.value in
      let name = outgrows h.name 128 in
      elim (Bool-cases (leb (length (hpack_huffman_encode h.name)) 128)) [
        | inl fits ↦
            rw (hpack_headers, e, fits)
              (
                λ o. inl (value.0 o),
                elim [
                  | inl long ↦ value.1 long
                  | inr (absent, long) ↦ absurd (let f = name.1 long in cc)
                ],
              )
        | inr long ↦ rw (hpack_headers, e, long) (λ o. inr (refl, name.0 long), λ o. refl)
      ]
]
