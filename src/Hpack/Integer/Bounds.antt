-- ===== src/Hpack/Integer/Bounds.antt =====
-- hpackDecodeInteger on arbitrary buffers: position, size and rounds.
use native.Mathlib.Nat.{mod-lt, pow-le-pow_right}
use http_request_client.Prelude.{
  Bool, true, false, ltb, ◌/◌, ◌==◌, if◌then◌else◌, ℕ, zero, suc, ◌+◌, ◌-◌, ◌*◌, ◌%◌, ◌^◌, ◌≤◌, ◌<◌,
  ◌≡◌, List, arith, length, get_or, leb,
}
use http_request_client.Prelude.Bits.{shift_seven}
use http_request_client.Hpack.Integer.{decode_rest, hpack_decode_integer}

decode_rest_pos :
    (rounds : ℕ) (buf : List ℕ) (pos value shift : ℕ)
    → pos ≤ length buf
    → (pos ≤ (decode_rest rounds buf pos value shift).1)
      × ((decode_rest rounds buf pos value shift).1 ≤ length buf)
unfolding decode_rest
decode_rest_pos zero buf pos value shift h = ground arith
decode_rest_pos (suc rounds) buf pos value shift h = ground (
  arith,
  decode_rest_pos rounds buf (suc pos) (value + get_or buf pos 0 % 128 * 2 ^ shift) (shift + 7),
)

-- One more round changes nothing once `shift` has reached the limit of the code.
decode_rest_enough :
    (rounds : ℕ) (buf : List ℕ) (pos value shift : ℕ)
    → 35 ≤ shift + 7 * rounds
    → shift ≤ 28
    → decode_rest rounds buf pos value shift ≡ decode_rest (suc rounds) buf pos value shift
unfolding decode_rest
decode_rest_enough zero buf pos value shift h k = absurd (omega arith)
decode_rest_enough (suc rounds) buf pos value shift h k = ground (
  arith,
  decode_rest_enough rounds buf (suc pos) (value + get_or buf pos 0 % 128 * 2 ^ shift) (shift + 7),
)

-- From a position inside the buffer, the decoder takes at least one byte and never leaves the
-- buffer.
pub decode_integer_pos :
    (buf : List ℕ) (pos prefix_size : ℕ)
    → pos < length buf
    → (pos < (hpack_decode_integer buf pos prefix_size).1)
      × ((hpack_decode_integer buf pos prefix_size).1 ≤ length buf)
unfolding hpack_decode_integer
decode_integer_pos buf pos prefix_size h =
    ground (arith, decode_rest_pos 5 buf (suc pos) (get_or buf pos 0 % 2 ^ prefix_size) 0)

group_bound : (b shift : ℕ) → b % 128 * 2 ^ shift ≤ 127 * 2 ^ shift
group_bound b shift = let h : b % 128 ≤ 127 = omega arith in grind arith

weight_grows : (shift rounds : ℕ) → 128 * 2 ^ shift ≤ 2 ^ (shift + 7 * suc rounds)
weight_grows shift rounds = rw (← shift_seven shift) (pow-le-pow_right (omega arith) (omega arith))

-- What holds of each way to leave a round holds of the round.
pick_bound :
    (a b c : Bool) (s m : ℕ) (x y z : ℕ × ℕ)
    → x.0 + s ≤ m
    → y.0 + s ≤ m
    → z.0 + s ≤ m
    → (if a then x else if b then y else if c then z else y).0 + s ≤ m
pick_bound true b c s m x y z p q r = p
pick_bound false true c s m x y z p q r = q
pick_bound false false true s m x y z p q r = r
pick_bound false false false s m x y z p q r = q

decode_rest_bound :
    (rounds : ℕ) (buf : List ℕ) (pos value shift : ℕ)
    → (decode_rest rounds buf pos value shift).0 + 2 ^ shift ≤ value + 2 ^ (shift + 7 * rounds)
unfolding decode_rest
decode_rest_bound zero buf pos value shift =
    let e : shift + 7 * 0 ≡ shift = omega arith in rw e (omega arith)
decode_rest_bound (suc rounds) buf pos value shift =
    let next = value + get_or buf pos 0 % 128 * 2 ^ shift in
    let again = rw seven at (decode_rest_bound rounds buf (suc pos) next (shift + 7)) in
    let small = group_bound (get_or buf pos 0) shift in
    let grows = weight_grows shift rounds in
    pick_bound (leb (length buf) pos) (ltb 28 (shift + 7)) (get_or buf pos 0 / 128 % 2 == 1)
      (2 ^ shift) (value + 2 ^ (shift + 7 * suc rounds)) _ _ _ (omega arith) (omega arith)
      (omega (arith, again, shift_seven shift))
  where
    seven : shift + 7 + 7 * rounds ≡ shift + 7 * suc rounds
    seven = omega arith

prefix_bound : (b k : ℕ) → k ≤ 8 → b % 2 ^ k < 2 ^ 8
prefix_bound b k h =
    let width : 2 ^ k ≤ 2 ^ 8 = pow-le-pow_right (omega arith) h in
    let positive : 0 < 2 ^ k = pow-le-pow_right {n = 2} (omega arith) {i = 0} (omega arith) in
    omega (arith, mod-lt b positive)

-- Whatever the bytes are, a decoded integer stays below 2 ^ 36, for prefixes of at most 8 bits.
pub decode_integer_bound :
    (buf : List ℕ) (pos prefix_size : ℕ)
    → prefix_size ≤ 8
    → (hpack_decode_integer buf pos prefix_size).0 + 1 ≤ 2 ^ 36
unfolding hpack_decode_integer
decode_integer_bound buf pos prefix_size h =
    let first = prefix_bound (get_or buf pos 0) prefix_size h in
    let more = decode_rest_bound 5 buf (suc pos) (get_or buf pos 0 % 2 ^ prefix_size) 0 in
    pick_bound (leb (length buf) pos) false
      (get_or buf pos 0 % 2 ^ prefix_size == 2 ^ prefix_size - 1) 1 (2 ^ 36) (0, pos)
      (get_or buf pos 0 % 2 ^ prefix_size, suc pos)
      (decode_rest 5 buf (suc pos) (get_or buf pos 0 % 2 ^ prefix_size) 0) (omega arith)
      (omega arith) (omega arith)
