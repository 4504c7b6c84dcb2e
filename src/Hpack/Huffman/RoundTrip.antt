-- ===== src/Hpack/Huffman/RoundTrip.antt =====
-- hpackHuffmanDecode on the output of hpackHuffmanEncode.
use mathlib.Core.List.{foldl, foldl-append}
use http_request_client.Prelude.{
  ℕ, ◌<◌, ◌≡◌, ◌↔◌, refl, sym, ap, ◌∙◌, List, [], ◌∷◌, ◌++◌, append_assoc, append-nil, Option, none,
  some, Bool, true, false, arith, ltb, ◌==◌, ==_iff, All, replicate, all_below, all_below_sound,
  ◌&&◌, ◌||◌, not, le→ltb,
}
use http_request_client.Prelude.Bits.{bits_of}
use http_request_client.Hpack.Huffman.{
  HuffmanNode, missing, node, Decoder, running, child, visit, decode_bit, decode_byte, decoded,
  huffman_decode_tree, hpack_huffman_decode, hpack_huffman_encode, huffman_root,
}
use http_request_client.Hpack.Huffman.Encoding.{IsEncodable, byte_bits, code_bits, encode-code_bits}
use http_request_client.Hpack.Huffman.Table.{huffman_code}

-- What a walk finds at `n` with `bits` still to go; the last argument is what it finds beyond.
abbrev arrive : HuffmanNode → List ℕ → Option ℕ → Option ℕ
arrive missing bits beyond = none
arrive (node none l r) bits beyond = beyond
arrive (node (some symbol) l r) [] beyond = some symbol
arrive (node (some symbol) l r) (b ∷ bits) beyond = none

-- The symbol that a whole code leads to, if the walk meets no symbol and no gap before its end.
follow : HuffmanNode → List ℕ → Option ℕ
follow n [] = none
follow n (b ∷ bits) = arrive (child n b) bits (follow (child n b) bits)

abbrev decode_bits : Decoder → List ℕ → Decoder
decode_bits = foldl (decode_bit huffman_root)

arrive-decode :
    (m : HuffmanNode) (bits dst : List ℕ) (symbol : ℕ)
    → (symbol == 256) ≡ false
    → arrive m bits (follow m bits) ≡ some symbol
    → (follow m bits ≡ some symbol
        → decode_bits (running dst m) bits ≡ running (dst ++ symbol ∷ []) huffman_root)
    → decode_bits (visit huffman_root dst m) bits ≡ running (dst ++ symbol ∷ []) huffman_root
arrive-decode missing bits dst symbol ne e ih = cc
arrive-decode (node none l r) bits dst symbol ne e ih = ih e
arrive-decode (node (some s) l r) [] dst symbol ne e ih =
    let same : s ≡ symbol = ground arith in rw (same, ne) refl
arrive-decode (node (some s) l r) (b ∷ bits) dst symbol ne e ih = cc

-- A code makes the decoder add its symbol and go back to the root.
follow-decode :
    (bits : List ℕ) (n : HuffmanNode) (dst : List ℕ) (symbol : ℕ)
    → (symbol == 256) ≡ false
    → follow n bits ≡ some symbol
    → decode_bits (running dst n) bits ≡ running (dst ++ symbol ∷ []) huffman_root
unfolding follow decode_bit
follow-decode [] n dst symbol ne e = cc
follow-decode (b ∷ bits) n dst symbol ne e =
    arrive-decode (child n b) bits dst symbol ne e (follow-decode bits (child n b) dst symbol ne)

-- No symbol and no gap on the way.
abbrev is_inner : HuffmanNode → Bool
is_inner (node none l r) = true
is_inner _ = false

quiet : HuffmanNode → List ℕ → Bool
quiet n [] = true
quiet n (b ∷ bits) = is_inner (child n b) && quiet (child n b) bits

visit-quiet :
    (m : HuffmanNode) (bits dst : List ℕ)
    → (is_inner m && quiet m bits) ≡ true
    → (quiet m bits ≡ true → decoded (decode_bits (running dst m) bits) ≡ dst)
    → decoded (decode_bits (visit huffman_root dst m) bits) ≡ dst
visit-quiet missing bits dst e ih = cc
visit-quiet (node none l r) bits dst e ih = ih e
visit-quiet (node (some s) l r) bits dst e ih = cc

quiet-decode :
    (bits : List ℕ) (n : HuffmanNode) (dst : List ℕ)
    → quiet n bits ≡ true
    → decoded (decode_bits (running dst n) bits) ≡ dst
unfolding quiet decode_bit
quiet-decode [] n dst e = refl
quiet-decode (b ∷ bits) n dst e =
    visit-quiet (child n b) bits dst e (quiet-decode bits (child n b) dst)

abbrev is_symbol : Option ℕ → ℕ → Bool
is_symbol none c = false
is_symbol (some s) c = s == c

pub is_symbol→eq : (o : Option ℕ) (c : ℕ) → is_symbol o c ≡ true → o ≡ some c
is_symbol→eq none c e = cc
is_symbol→eq (some s) c e = ap some ((==_iff s c).0 e)

-- The walk of a byte's own code.
abbrev own_walk : HuffmanNode → ℕ → Option ℕ
own_walk root c = follow root (bits_of (huffman_code c).bits (huffman_code c).code)

tree_reads : HuffmanNode → Bool
tree_reads root = all_below 256 (λ c. ltb 25 (huffman_code c).bits || is_symbol (own_walk root c) c)

tree_pads : HuffmanNode → Bool
tree_pads root = all_below 8 (λ p. quiet root (replicate p 1))

tree_reads_all : tree_reads huffman_root ≡ true
unfolding tree_reads all_below huffman_root follow huffman_code
tree_reads_all = refl

tree_pads_all : tree_pads huffman_root ≡ true
unfolding tree_pads all_below huffman_root quiet
tree_pads_all = refl

tree_reads_at :
    (c : ℕ)
    → c < 256
    → (ltb 25 (huffman_code c).bits || is_symbol (own_walk huffman_root c) c) ≡ true
unfolding tree_reads
tree_reads_at c h =
    all_below_sound 256 (λ c. ltb 25 (huffman_code c).bits || is_symbol (own_walk huffman_root c) c)
      c tree_reads_all h

tree_pads_at : (p : ℕ) → p < 8 → quiet huffman_root (replicate p 1) ≡ true
unfolding tree_pads
tree_pads_at p h = all_below_sound 8 (λ p. quiet huffman_root (replicate p 1)) p tree_pads_all h

read_symbol :
    (c : ℕ) (dst : List ℕ)
    → IsEncodable c
    → decode_bits (running dst huffman_root) (bits_of (huffman_code c).bits (huffman_code c).code)
      ≡ running (dst ++ c ∷ []) huffman_root
read_symbol c dst ok =
    follow-decode (bits_of (huffman_code c).bits (huffman_code c).code) huffman_root dst c
      (let small = ok.byte in ground arith)
      (is_symbol→eq (own_walk huffman_root c) c (
        short_reads (ltb 25 (huffman_code c).bits) (is_symbol (own_walk huffman_root c) c)
          (le→ltb 25 (huffman_code c).bits ok.short) (tree_reads_at c ok.byte)))
  where
    short_reads : (a b : Bool) → a ≡ false → (a || b) ≡ true → b ≡ true
    short_reads true b e f = cc
    short_reads false b e f = f

read_text :
    (text dst rest : List ℕ)
    → All IsEncodable text
    → decode_bits (running dst huffman_root) (code_bits text ++ rest)
      ≡ decode_bits (running (dst ++ text) huffman_root) rest
read_text [] dst rest ok =
    ap (λ t. decode_bits (running t huffman_root) rest) (sym (append-nil dst))
read_text (c ∷ text) dst rest ok =
    let own = bits_of (huffman_code c).bits (huffman_code c).code in
    ap (decode_bits (running dst huffman_root)) (append_assoc own (code_bits text) rest)
    ∙ foldl-append (decode_bit huffman_root) (running dst huffman_root) own (code_bits text ++ rest)
    ∙ ap (λ d. decode_bits d (code_bits text ++ rest)) (read_symbol c dst ok.0)
    ∙ read_text text (dst ++ c ∷ []) rest ok.1
    ∙ ap (λ t. decode_bits (running t huffman_root) rest) (append_assoc dst (c ∷ []) text)

-- The two nested loops are one loop over the bits.
decode_bytes :
    (src : List ℕ) (d : Decoder)
    → foldl (decode_byte huffman_root) d src ≡ decode_bits d (byte_bits src)
unfolding decode_byte
decode_bytes [] d = refl
decode_bytes (b ∷ src) d =
    decode_bytes src (decode_bits d (bits_of 8 b))
    ∙ sym (foldl-append (decode_bit huffman_root) d (bits_of 8 b) (byte_bits src))

-- `hpackHuffmanDecode` gives back every text that `hpackHuffmanEncode` wrote, if all its characters
-- are bytes with codes of at most 25 bits.
pub huffman_decode-encode :
    (text : List ℕ) → All IsEncodable text → hpack_huffman_decode (hpack_huffman_encode text) ≡ text
unfolding hpack_huffman_decode huffman_decode_tree
huffman_decode-encode text ok =
    let (p, few, bits) = encode-code_bits text ok in
    ap decoded (
      decode_bytes (hpack_huffman_encode text) (running [] huffman_root)
      ∙ ap (decode_bits (running [] huffman_root)) bits
      ∙ read_text text [] (replicate p 1) ok)
    ∙ quiet-decode (replicate p 1) huffman_root text (tree_pads_at p few)

-- The bytes whose code in the source's table begins with the code of another symbol.
abbrev pub conflicting : List ℕ
conflicting =
    192 ∷ 193 ∷ 200 ∷ 201 ∷ 202 ∷ 203 ∷ 204 ∷ 205 ∷ 210 ∷ 211 ∷ 212 ∷ 213 ∷ 218 ∷ 219 ∷ 238 ∷ 240
    ∷ 242 ∷ 243 ∷ []

abbrev pub contains : List ℕ → ℕ → Bool
contains [] c = false
contains (x ∷ xs) c = x == c || contains xs c

abbrev is_single : List ℕ → ℕ → Bool
is_single [] c = false
is_single (x ∷ []) c = x == c
is_single (x ∷ y ∷ rest) c = false

single_iff : (text : List ℕ) (c : ℕ) → (is_single text c ≡ true) ↔ (text ≡ c ∷ [])
single_iff [] c = (λ e. cc, λ e. cc)
single_iff (x ∷ []) c =
    (λ e. ap (λ (t : ℕ). t ∷ []) ((==_iff x c).0 e), λ e. (==_iff x c).1 (ground arith))
single_iff (x ∷ y ∷ rest) c = (λ e. cc, λ e. cc)

abbrev same : Bool → Bool → Bool
same true b = b
same false b = not b

single_reads : ℕ → Bool
single_reads c =
    same (is_single (hpack_huffman_decode (hpack_huffman_encode (c ∷ []))) c)
      (not (contains conflicting c))

single_reads_all : all_below 256 single_reads ≡ true
unfolding single_reads all_below hpack_huffman_decode hpack_huffman_encode huffman_root huffman_code
single_reads_all = refl

single_reads_at :
    (c : ℕ)
    → c < 256
    → same
        (is_single (hpack_huffman_decode (hpack_huffman_encode (c ∷ []))) c)
        (not (contains conflicting c))
      ≡ true
unfolding single_reads
single_reads_at c h = all_below_sound 256 single_reads c single_reads_all h

-- The text of one byte comes back from the encoder and decoder exactly when the byte is not one of
-- the eighteen conflicting ones.
pub single_decode-encode :
    (c : ℕ)
    → c < 256
    → (hpack_huffman_decode (hpack_huffman_encode (c ∷ [])) ≡ c ∷ [])
      ↔ (contains conflicting c ≡ false)
single_decode-encode c h =
    let single = single_iff (hpack_huffman_decode (hpack_huffman_encode (c ∷ []))) c in
    let agrees =
      exactly (is_single (hpack_huffman_decode (hpack_huffman_encode (c ∷ []))) c)
        (contains conflicting c) (single_reads_at c h) in
    (λ e. agrees.0 (single.1 e), λ e. single.0 (agrees.1 e))
  where
    exactly : (a b : Bool) → same a (not b) ≡ true → (a ≡ true) ↔ (b ≡ false)
    exactly true true e = (λ f. cc, λ f. cc)
    exactly true false e = (λ f. refl, λ f. refl)
    exactly false true e = (λ f. cc, λ f. cc)
    exactly false false e = (λ f. cc, λ f. cc)
