-- ===== src/Hpack/Huffman.antt =====
-- The Huffman code of src/CompressHandler.c: `hpackHuffmanEncode`, `buildHuffmanTree` and
-- `hpackHuffmanDecode`. Bytes are numbers; `uint32_t` shifts keep their wrap-around. `bitsUsed`
-- stays below 38, so its `uint8_t` does not wrap.
pub mod Table
pub mod Encoding
pub mod RoundTrip
pub mod Size
use Prim.Native.Nat.{bit_or}
use mathlib.Core.List.{foldl}
use http_request_client.Prelude.{
  ℕ, zero, suc, ◌+◌, ◌-◌, ◌*◌, ◌/◌, ◌%◌, ◌^◌, List, [], ◌∷◌, ◌++◌, Option, none, some, ltb, leb,
  ◌==◌, if◌then◌else◌, take,
}
use http_request_client.Prelude.Bits.{bits_of}
use Table.{HuffmanCode, huffman_code, huffman_table}

-- The locals of `hpackHuffmanEncode`.
pub record Encoder : Type 0 where
  pub output : List ℕ
  pub current_byte : ℕ
  pub bits_used : ℕ

-- One round of `while (bitsUsed >= 8)`.
abbrev pub write_byte : Encoder → Encoder
write_byte e =
    let used = e.bits_used - 8 in
    record {
      output = e.output ++ (e.current_byte / 2 ^ used % 256 ∷ []);
      current_byte = e.current_byte % 2 ^ used;
      bits_used = used;
    }

-- The loop takes at most `bits_used` rounds.
unfoldable pub write_bytes : ℕ → Encoder → Encoder
write_bytes zero e = e
write_bytes (suc rounds) e =
    let more = write_bytes rounds (write_byte e) in if leb 8 e.bits_used then more else e

unfoldable pub encode_char : Encoder → ℕ → Encoder
unfolding write_bytes
encode_char e c =
    let code = huffman_code c in
    let used = e.bits_used + code.bits in
    write_bytes used (record e {
      current_byte = bit_or (e.current_byte * 2 ^ code.bits % 2 ^ 32) code.code;
      bits_used = used;
    })

-- The padding with the ones of the end of string.
unfoldable pub finish_encoding : Encoder → List ℕ
finish_encoding e =
    let spare = 8 - e.bits_used in
    if ltb 0 e.bits_used
    then e.output ++ (bit_or (e.current_byte * 2 ^ spare % 2 ^ 32) (2 ^ spare - 1) % 256 ∷ [])
    else e.output

abbrev pub empty_encoder : Encoder
empty_encoder = record { output = []; current_byte = 0; bits_used = 0 }

unfoldable pub hpack_huffman_encode : List ℕ → List ℕ
unfolding encode_char finish_encoding
hpack_huffman_encode input = finish_encoding (foldl encode_char empty_encoder input)

-- `missing` is the NULL child; a symbol of -1 is `none`.
pub data HuffmanNode : Type 0 where
  missing : HuffmanNode
  node : Option ℕ → HuffmanNode → HuffmanNode → HuffmanNode

abbrev new_node : HuffmanNode
new_node = node none missing missing

-- `if (!child) { child = getHuffmanNode(index++); ... }`; the pool has 513 nodes.
abbrev get_huffman_node : HuffmanNode → ℕ → Option (HuffmanNode × ℕ)
get_huffman_node missing index = if ltb index 513 then some (new_node, suc index) else none
get_huffman_node (node s l r) index = some (node s l r, index)

-- The walk from the root along the bits of a code, the highest first, and the symbol at its end.
unfoldable pub add_code : List ℕ → ℕ → HuffmanNode → ℕ → Option (HuffmanNode × ℕ)
add_code bits symbol missing index = none
add_code [] symbol (node s l r) index = some (node (some symbol) l r, index)
add_code (bit ∷ bits) symbol (node s l r) index =
    if bit == 0
    then (elim (get_huffman_node l index) [
      | none ↦ none
      | some (child, index') ↦ elim (add_code bits symbol child index') [
        | none ↦ none
        | some (l', index'') ↦ some (node s l' r, index'')
      ]
    ])
    else (elim (get_huffman_node r index) [
      | none ↦ none
      | some (child, index') ↦ elim (add_code bits symbol child index') [
        | none ↦ none
        | some (r', index'') ↦ some (node s l r', index'')
      ]
    ])

unfoldable pub add_codes : List HuffmanCode → ℕ → HuffmanNode → ℕ → Option (HuffmanNode × ℕ)
unfolding add_code
add_codes [] symbol root index = some (root, index)
add_codes (code ∷ codes) symbol root index =
    elim (add_code (bits_of code.bits code.code) symbol root index) [
      | none ↦ none
      | some (root', index') ↦ add_codes codes (suc symbol) root' index'
    ]

-- `for (int i = 0; i < 257; i++)`: the tree and the number of nodes taken from the pool.
unfoldable pub build_huffman_tree : Option (HuffmanNode × ℕ)
unfolding add_codes huffman_table
build_huffman_tree = add_codes (take 257 huffman_table) 0 new_node 1

unfoldable pub huffman_root : HuffmanNode
unfolding build_huffman_tree
huffman_root = elim build_huffman_tree [ none ↦ missing | some (root, _) ↦ root ]

-- `done` is the jump to the label of that name.
pub data Decoder : Type 0 where
  running : List ℕ → HuffmanNode → Decoder
  done : List ℕ → Decoder

abbrev pub child : HuffmanNode → ℕ → HuffmanNode
child missing bit = missing
child (node s l r) bit = if bit == 0 then l else r

abbrev pub visit : HuffmanNode → List ℕ → HuffmanNode → Decoder
visit root dst missing = done dst
visit root dst (node none l r) = running dst (node none l r)
visit root dst (node (some symbol) l r) =
    if symbol == 256 then done dst else running (dst ++ symbol ∷ []) root

unfoldable pub decode_bit : HuffmanNode → Decoder → ℕ → Decoder
decode_bit root (done dst) bit = done dst
decode_bit root (running dst n) bit = visit root dst (child n bit)

unfoldable pub decode_byte : HuffmanNode → Decoder → ℕ → Decoder
unfolding decode_bit
decode_byte root d byte = foldl (decode_bit root) d (bits_of 8 byte)

abbrev pub decoded : Decoder → List ℕ
decoded (running dst n) = dst
decoded (done dst) = dst

unfoldable pub huffman_decode_tree : List ℕ → HuffmanNode → List ℕ
unfolding decode_byte
huffman_decode_tree src root = decoded (foldl (decode_byte root) (running [] root) src)

unfoldable pub hpack_huffman_decode : List ℕ → List ℕ
unfolding huffman_decode_tree
hpack_huffman_decode src = huffman_decode_tree src huffman_root
