-- ===== src/Hpack/Integer.antt =====
-- `hpackEncodeInteger` and `hpackDecodeInteger` of src/CompressHandler.c.
-- A buffer with its length is a list of bytes, `*pos` is passed in and returned, and `size_t`
-- values are plain numbers. The encoder returns the bytes that it writes through its pointer.
pub mod Bounds
pub mod RoundTrip
use Prim.Native.Nat.{bit_or}
use http_request_client.Prelude.{
  ℕ, zero, suc, ◌+◌, ◌-◌, ◌*◌, ◌/◌, ◌%◌, ◌^◌, List, [], ◌∷◌, Bool, ltb, leb, ◌==◌, if◌then◌else◌,
  length, get_or,
}

-- `while (value >= 128) { emit low 7 bits | 0x80; value >>= 7; }` and the last byte.
unfoldable pub encode_rest : ℕ → ℕ → List ℕ
encode_rest zero value = value % 128 ∷ []
encode_rest (suc fuel) value =
    let more = encode_rest fuel (value / 128) in
    if leb 128 value then bit_or 128 (value % 128) ∷ more else value % 128 ∷ []

-- A 64-bit value has at most ten groups of seven bits.
unfoldable pub hpack_encode_integer : ℕ → ℕ → ℕ → List ℕ
hpack_encode_integer value prefix_bits prefix =
    let max_prefix = 2 ^ prefix_bits - 1 in
    if ltb value max_prefix
    then bit_or prefix value % 256 ∷ []
    else bit_or prefix max_prefix % 256 ∷ encode_rest 10 (value - max_prefix)

-- The `do ... while (b & 0x80)` loop; the number counts the rounds that `shift > 28` allows.
unfoldable pub decode_rest : ℕ → List ℕ → ℕ → ℕ → ℕ → ℕ × ℕ
decode_rest zero buf pos value shift = (value, pos)
decode_rest (suc rounds) buf pos value shift =
    let b = get_or buf pos 0 in
    let value' = value + b % 128 * 2 ^ shift in
    let again = decode_rest rounds buf (suc pos) value' (shift + 7) in
    if leb (length buf) pos
    then (value, pos)
    else if ltb 28 (shift + 7)
    then (value', suc pos)
    else if b / 128 % 2 == 1
    then again
    else (value', suc pos)

-- Returns the value and the new position.
unfoldable pub hpack_decode_integer : List ℕ → ℕ → ℕ → ℕ × ℕ
unfolding decode_rest
hpack_decode_integer buf pos prefix_size =
    let value = get_or buf pos 0 % 2 ^ prefix_size in
    let continued = decode_rest 5 buf (suc pos) value 0 in
    if leb (length buf) pos
    then (0, pos)
    else if value == 2 ^ prefix_size - 1
    then continued
    else (value, suc pos)
