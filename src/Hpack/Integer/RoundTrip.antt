-- ===== src/Hpack/Integer/RoundTrip.antt =====
-- hpackDecodeInteger on the output of hpackEncodeInteger.
use Prim.Native.Nat.{bit_or}
use native.Mathlib.Nat.{mod-eq_of_lt, mul-add-mod_self_right, pow-le-pow_right}
use http_request_client.Prelude.{
  ℕ, zero, suc, ◌+◌, ◌-◌, ◌*◌, ◌/◌, ◌%◌, ◌^◌, ◌≤◌, ◌<◌, ◌≡◌, refl, ap, ap₂, ◌∙◌, inl, inr, List, [],
  ◌∷◌, ◌++◌, arith, length, drop, drop-append, drop-suc, drop-cons_lt, get_or-drop, Bool-cases, ltb,
  lt→leb, le→ltb, ltb→lt, ◌==◌, true,
}
use http_request_client.Prelude.Bits.{bit_or-shifted, shift_seven, next_group}
use http_request_client.Hpack.Integer.{
  encode_rest, decode_rest, hpack_encode_integer, hpack_decode_integer,
}

-- One byte of a continuation, read where it stands.
module _ (buf : List ℕ) (pos value shift b : ℕ) (tail : List ℕ)
    (here : drop pos buf ≡ b ∷ tail) where
  decode_rest_last :
      (rounds : ℕ)
      → b < 128
      → decode_rest (suc rounds) buf pos value shift ≡ (value + b * 2 ^ shift, suc pos)
  unfolding decode_rest
  decode_rest_last rounds h =
      rw
        (
          lt→leb (length buf) pos (drop-cons_lt buf pos b tail here),
          get_or-drop buf pos 0 b tail here,
        )
        (ground (arith, low))
    where
      low : b % 128 ≡ b
      low = omega arith

  decode_rest_more :
      (rounds : ℕ) (c : ℕ)
      → b ≡ 128 + c
      → c < 128
      → shift + 7 ≤ 28
      → decode_rest (suc rounds) buf pos value shift
        ≡ decode_rest rounds buf (suc pos) (value + c * 2 ^ shift) (shift + 7)
  unfolding decode_rest
  decode_rest_more rounds c e h k =
      rw
        (
          lt→leb (length buf) pos (drop-cons_lt buf pos b tail here),
          get_or-drop buf pos 0 b tail here,
        )
        (rw (le→ltb 28 (shift + 7) k, low, high) refl)
    where
      low : b % 128 ≡ c
      low = omega arith

      high : (b / 128 % 2 == 1) ≡ true
      high = ground arith

continued : (c : ℕ) → c < 128 → bit_or 128 c ≡ 128 + c
continued c h = bit_or-shifted 7 1 c h

abbrev Reads : ℕ → ℕ → List ℕ → ℕ → ℕ → ℕ → ℕ → Type 0
Reads fuel rounds buf pos value shift v =
    decode_rest rounds buf pos value shift
    ≡ (value + v * 2 ^ shift, pos + length (encode_rest fuel v))

-- `v` splits into its low seven bits and the rest, at the weights of two rounds.
regroup :
    (value shift v : ℕ)
    → value + v % 128 * 2 ^ shift + v / 128 * 2 ^ (shift + 7) ≡ value + v * 2 ^ shift
regroup value shift v = rw shift_seven (omega (arith, ap (λ (t : ℕ). t * 2 ^ shift) split))
  where
    split : v % 128 + v / 128 * 128 ≡ v
    split = omega arith

encode_rest_small : (fuel v : ℕ) → v < 128 → encode_rest fuel v ≡ v ∷ []
unfolding encode_rest
encode_rest_small zero v h = ap (λ t. t ∷ []) (omega arith)
encode_rest_small (suc fuel) v h = ground (arith, low)
  where
    low : v % 128 ≡ v
    low = omega arith

encode_rest_large :
    (fuel v : ℕ) → 128 ≤ v → encode_rest (suc fuel) v ≡ (128 + v % 128) ∷ encode_rest fuel (v / 128)
unfolding encode_rest
encode_rest_large fuel v h = ground (arith, continued (v % 128) (omega arith))

small_group :
    (buf : List ℕ) (rest : List ℕ) (fuel rounds pos value shift v : ℕ)
    → drop pos buf ≡ encode_rest fuel v ++ rest
    → v < 128
    → Reads fuel (suc rounds) buf pos value shift v
small_group buf rest fuel rounds pos value shift v d h =
    rw (encode_rest_small fuel v h, decode_rest_last buf pos value shift v rest here rounds h)
      (ap (λ (t : ℕ). (value + v * 2 ^ shift, t)) (omega arith))
  where
    here : drop pos buf ≡ v ∷ rest
    here = rw (encode_rest_small fuel v h) at d

module _ (buf : List ℕ) (rest : List ℕ) where
  decode_rest-encode_rest :
      (fuel rounds pos value shift v : ℕ)
      → drop pos buf ≡ encode_rest fuel v ++ rest
      → shift + 7 * suc rounds ≡ 35
      → v < 2 ^ (7 * suc rounds)
      → rounds ≤ fuel
      → Reads fuel (suc rounds) buf pos value shift v
  decode_rest-encode_rest fuel zero pos value shift v d s h f =
      small_group buf rest fuel zero pos value shift v d h
  decode_rest-encode_rest zero (suc rounds) pos value shift v d s h f = absurd (omega arith)
  decode_rest-encode_rest (suc fuel) (suc rounds) pos value shift v d s h f =
      elim (Bool-cases (ltb v 128)) [
        | inl small ↦
            small_group buf rest (suc fuel) (suc rounds) pos value shift v d (ltb→lt v 128 small)
        | inr large ↦
            let big : 128 ≤ v = ground arith in
            let low : v % 128 < 128 = omega arith in
            let here : drop pos buf ≡ (128 + v % 128) ∷ (encode_rest fuel (v / 128) ++ rest) =
              rw (encode_rest_large fuel v big) at d in
            let next =
              decode_rest-encode_rest fuel rounds (suc pos) (value + v % 128 * 2 ^ shift)
                (shift + 7) (v / 128) (drop-suc buf pos _ _ here) (omega arith)
                (next_group (7 * suc rounds) v (rw weight at h)) (omega arith) in
            rw (encode_rest_large fuel v big) (
              decode_rest_more buf pos value shift _ _ here (suc rounds) (v % 128) refl low
                (omega arith)
              ∙ next
              ∙ ap₂ (λ (t u : ℕ). (t, u)) (regroup value shift v) (omega arith))
      ]
    where
      weight : 7 * suc (suc rounds) ≡ 7 * suc rounds + 7
      weight = omega arith

-- A byte whose low `k` digits are `x`.
prefix_digits : (k j x : ℕ) → x < 2 ^ k → (j * 2 ^ k + x) % 2 ^ k ≡ x
prefix_digits k j x h = mul-add-mod_self_right j (2 ^ k) x ∙ mod-eq_of_lt h

byte_fits :
    (k j x : ℕ) → (j + 1) * 2 ^ k ≤ 256 → x < 2 ^ k → bit_or (j * 2 ^ k) x % 256 ≡ j * 2 ^ k + x
byte_fits k j x fits h = rw (bit_or-shifted k j x h) (omega arith)

module _ (buf : List ℕ) (pos k j x : ℕ) (tail : List ℕ)
    (here : drop pos buf ≡ (j * 2 ^ k + x) ∷ tail) where
  decode_prefix_only : x < 2 ^ k - 1 → hpack_decode_integer buf pos k ≡ (x, suc pos)
  unfolding hpack_decode_integer
  decode_prefix_only h =
      rw
        (
          lt→leb (length buf) pos (drop-cons_lt buf pos _ tail here),
          get_or-drop buf pos 0 _ tail here,
          prefix_digits k j x (omega arith),
        )
        (ground arith)

  decode_continued :
      x < 2 ^ k → x ≡ 2 ^ k - 1 → hpack_decode_integer buf pos k ≡ decode_rest 5 buf (suc pos) x 0
  unfolding hpack_decode_integer
  decode_continued h e =
      rw
        (
          lt→leb (length buf) pos (drop-cons_lt buf pos _ tail here),
          get_or-drop buf pos 0 _ tail here,
          prefix_digits k j x h,
        )
        (ground arith)

positive : (k : ℕ) → 0 < 2 ^ k
positive k = pow-le-pow_right {n = 2} (omega arith) {i = 0} (omega arith)

module _ (k j v : ℕ) (fits : (j + 1) * 2 ^ k ≤ 256) (pre rest : List ℕ) where
  abbrev encoded : List ℕ
  encoded = hpack_encode_integer v k (j * 2 ^ k)

  -- The decoder returns the encoded value and stops right behind its last byte, for every prefix
  -- width and pattern `j` above the prefix that fit a byte, and every value below 2 ^ 35, wherever
  -- the encoding stands in a buffer.
  pub decode-encode_integer :
      v < 2 ^ 35
      → hpack_decode_integer (pre ++ (encoded ++ rest)) (length pre) k
        ≡ (v, length pre + length encoded)
  unfolding hpack_encode_integer
  decode-encode_integer h = elim (Bool-cases (ltb v (2 ^ k - 1))) [
    | inl short ↦
        rw (short, byte_fits k j v fits (ground arith))
          (decode_prefix_only _ (length pre) k j v rest (drop-append pre _) (ltb→lt _ _ short)
            ∙ ap (λ (t : ℕ). (v, t)) (omega arith))
    | inr long ↦
        rw (long, byte_fits k j (2 ^ k - 1) fits (omega (arith, positive k)))
          (decode_continued _ (length pre) k j (2 ^ k - 1) _ (drop-append pre _)
              (omega (arith, positive k)) refl
            ∙ decode_rest-encode_rest _ rest 10 4 (suc (length pre)) (2 ^ k - 1) 0 (v - (2 ^ k - 1))
                (drop-suc _ (length pre) _ _ (drop-append pre _)) refl (omega arith) (omega arith)
            ∙ ap₂ (λ (t u : ℕ). (t, u)) (ground arith) (omega arith))
  ]
