-- ===== src/Hpack/Strings.antt =====
-- `writeHuffmanValue` and `hpackDecodeString` of src/CompressHandler.c. The buffer
-- that is written to through a pointer is large enough, and allocations succeed.
pub mod RoundTrip
pub mod Bounds
use http_request_client.Prelude.{
  ℕ, ◌+◌, ◌*◌, ◌/◌, ◌%◌, List, [], ◌∷◌, ◌++◌, Option, none, some, ltb, leb, ◌==◌, if◌then◌else◌,
  length, get_or, take, drop,
}
use http_request_client.Hpack.Huffman.{hpack_huffman_encode, hpack_huffman_decode}
use http_request_client.Hpack.Integer.{hpack_encode_integer, hpack_decode_integer}

-- The text that a reader of a C string sees in a buffer: what stands before the first zero.
unfoldable pub c_string : List ℕ → List ℕ
c_string [] = []
c_string (c ∷ cs) = if c == 0 then [] else c ∷ c_string cs

-- The bytes of an encoded string with its length before it.
unfoldable pub huffman_bytes : List ℕ → List ℕ
huffman_bytes [] = 128 ∷ []
huffman_bytes (c ∷ cs) =
    let encoded = hpack_huffman_encode (c ∷ cs) in
    hpack_encode_integer (length encoded) 7 128 ++ encoded

-- The bytes that `writeHuffmanValue` writes through its pointer; `none` if the encoder writes past the
-- `valueLen * 2 + 10` bytes of `huffBuffer`, which has no defined result.
unfoldable pub write_huffman_value : List ℕ → Option (List ℕ)
unfolding huffman_bytes
write_huffman_value [] = some (128 ∷ [])
write_huffman_value (c ∷ cs) =
    if leb (length (hpack_huffman_encode (c ∷ cs))) (length (c ∷ cs) * 2 + 10)
    then some (huffman_bytes (c ∷ cs))
    else none

-- `none` is NULL; the number is the new position.
unfoldable pub hpack_decode_string : List ℕ → ℕ → Option (List ℕ) × ℕ
unfolding c_string
hpack_decode_string payload pos =
    let (str_len, pos') = hpack_decode_integer payload pos 7 in
    let is_huffman = get_or payload pos 0 / 128 % 2 == 1 in
    let bytes = take str_len (drop pos' payload) in
    if leb (length payload) pos
    then (none, pos)
    else if ltb (length payload) (pos' + str_len)
    then (none, pos')
    else (
      some (c_string (if is_huffman then hpack_huffman_decode bytes else bytes)),
      pos' + str_len,
    )
