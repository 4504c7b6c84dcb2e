-- ===== src/Hpack/Strings/Bounds.antt =====
-- The position of hpackDecodeString on arbitrary payloads.
use http_request_client.Prelude.{
  ℕ, ◌+◌, ◌≤◌, ◌<◌, ◌≡◌, List, arith, length, ltb, lt→leb, Bool-cases, inl, inr, none, le→leb,
}
use http_request_client.Hpack.Integer.{hpack_decode_integer}
use http_request_client.Hpack.Integer.Bounds.{decode_integer_pos}
use http_request_client.Hpack.Strings.{hpack_decode_string}

-- From a position inside the buffer, a call takes at least one byte and never leaves the buffer.
pub decode_string_pos :
    (payload : List ℕ) (pos : ℕ)
    → pos < length payload
    → (pos < (hpack_decode_string payload pos).1)
      × ((hpack_decode_string payload pos).1 ≤ length payload)
unfolding hpack_decode_string
decode_string_pos payload pos h =
    rw (lt→leb (length payload) pos h)
      (elim (Bool-cases (
        ltb (length payload)
          ((hpack_decode_integer payload pos 7).1 + (hpack_decode_integer payload pos 7).0))) [
            | inl long ↦ rw long (decode_integer_pos payload pos 7 h)
            | inr fits ↦
                rw fits (let p = decode_integer_pos payload pos 7 h in (omega arith, ground arith))
          ])

-- Past the end there is no string, and the position stays.
pub decode_string_end :
    (payload : List ℕ) (pos : ℕ)
    → length payload ≤ pos
    → hpack_decode_string payload pos ≡ (none, pos)
unfolding hpack_decode_string
decode_string_end payload pos h = rw (le→leb _ _ h)
