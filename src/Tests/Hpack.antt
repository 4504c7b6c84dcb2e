-- ===== src/Tests/Hpack.antt =====
-- Header compression on concrete texts and tables.
use http_request_client.Prelude.{
  ℕ, ◌+◌, ◌*◌, ◌^◌, ◌≤◌, ◌<◌, ◌≡◌, ◌≢◌, ◌↔◌, refl, List, [], ◌∷◌, ◌++◌, some, All, arith, length,
  replicate, false, ltb, if◌then◌else◌, ◌-◌,
}
use http_request_client.Errors.{err_none}
use http_request_client.Prelude.Text.{codes}
use http_request_client.Hpack.Huffman.{hpack_huffman_encode, hpack_huffman_decode}
use http_request_client.Hpack.Huffman.Table.{huffman_code}
use http_request_client.Hpack.Huffman.Encoding.{IsEncodable, byte_bits, code_bits, encode-code_bits}
use http_request_client.Hpack.Huffman.RoundTrip.{
  huffman_decode-encode, single_decode-encode, contains, conflicting,
}
use http_request_client.Hpack.Huffman.Size.{total_bits, length-encode}
use http_request_client.Hpack.Integer.{hpack_encode_integer, hpack_decode_integer}
use http_request_client.Hpack.Integer.RoundTrip.{decode-encode_integer}
use http_request_client.Hpack.Integer.Bounds.{decode_integer_pos, decode_integer_bound}
use http_request_client.Hpack.Strings.{write_huffman_value, hpack_decode_string}
use http_request_client.Hpack.Strings.RoundTrip.{decode-write_value}
use http_request_client.Hpack.Strings.Bounds.{decode_string_pos}
use http_request_client.Hpack.Table.Static.{HpackTableEntry}
use http_request_client.Hpack.Table.{
  HpackContext, get_header_from_table, add_to_dynamic_table, update_table_size,
}
use http_request_client.Hpack.Table.Fits.{
  context, fitting, update_table_size_lem, add_to_dynamic_table_lem,
}
use http_request_client.Hpack.Table.Bounds.{
  IsBounded, update_table_size-IsBounded, add_to_dynamic_table-IsBounded,
}
use http_request_client.Hpack.Block.{decode_headers_frame}
use http_request_client.Hpack.Block.Steps.{Runs, headers_count}
use http_request_client.Hpack.Block.Bounds.{
  initial, decode_headers_frame-Runs, decode_headers_frame_bounds,
}

-- "hi"
abbrev hi : List ℕ
hi = 104 ∷ 105 ∷ []

h-IsEncodable : IsEncodable 104
unfolding huffman_code
h-IsEncodable = record { byte = omega arith; short = omega arith }

i-IsEncodable : IsEncodable 105
unfolding huffman_code
i-IsEncodable = record { byte = omega arith; short = omega arith }

hi-IsEncodable : All IsEncodable hi
hi-IsEncodable = (h-IsEncodable, (i-IsEncodable, tt))

hi_nonzero : All (λ (c : ℕ). c ≢ 0) hi
hi_nonzero = (omega arith, (omega arith, tt))

huffman_decode-encode_example : hpack_huffman_decode (hpack_huffman_encode hi) ≡ hi
huffman_decode-encode_example = huffman_decode-encode hi hi-IsEncodable

encode-code_bits_example :
    (p : ℕ) × (p < 8) × (byte_bits (hpack_huffman_encode hi) ≡ code_bits hi ++ replicate p 1)
encode-code_bits_example = encode-code_bits hi hi-IsEncodable

single_decode-encode_example :
    (hpack_huffman_decode (hpack_huffman_encode (200 ∷ [])) ≡ 200 ∷ [])
    ↔ (contains conflicting 200 ≡ false)
single_decode-encode_example = single_decode-encode 200 (omega arith)

length-encode_example :
    (total_bits hi ≤ 8 * length (hpack_huffman_encode hi))
    × (8 * length (hpack_huffman_encode hi) < total_bits hi + 8)
length-encode_example = length-encode hi

-- RFC 7541, C.1.2: 1337 with a prefix of five bits.
decode-encode_integer_example :
    hpack_decode_integer ((7 ∷ []) ++ (hpack_encode_integer 1337 5 0 ++ [])) 1 5
    ≡ (1337, 1 + length (hpack_encode_integer 1337 5 0))
decode-encode_integer_example =
    decode-encode_integer 5 0 1337 (omega arith) (7 ∷ []) [] (omega arith)

decode_integer_pos_example :
    (0 < (hpack_decode_integer (31 ∷ 154 ∷ 10 ∷ []) 0 5).1)
    × ((hpack_decode_integer (31 ∷ 154 ∷ 10 ∷ []) 0 5).1 ≤ 3)
decode_integer_pos_example = decode_integer_pos (31 ∷ 154 ∷ 10 ∷ []) 0 5 (omega arith)

decode_integer_bound_example : (hpack_decode_integer (31 ∷ 154 ∷ 10 ∷ []) 0 5).0 + 1 ≤ 2 ^ 36
decode_integer_bound_example = decode_integer_bound (31 ∷ 154 ∷ 10 ∷ []) 0 5 (omega arith)

hi_short : length (hpack_huffman_encode hi) < 2 ^ 35
unfolding hpack_huffman_encode huffman_code
hi_short = omega arith

hi_compact : total_bits hi ≤ 16 * length hi + 80
unfolding huffman_code
hi_compact = omega arith

decode-write_value_example :
    (bytes : List ℕ) × (write_huffman_value hi ≡ some bytes)
    × (hpack_decode_string ((7 ∷ []) ++ (bytes ++ (8 ∷ []))) 1 ≡ (some hi, 1 + length bytes))
decode-write_value_example =
    decode-write_value hi (7 ∷ []) (8 ∷ []) hi-IsEncodable hi_nonzero hi_compact hi_short

decode_string_pos_example :
    (0 < (hpack_decode_string (2 ∷ 104 ∷ 105 ∷ []) 0).1)
    × ((hpack_decode_string (2 ∷ 104 ∷ 105 ∷ []) 0).1 ≤ 3)
decode_string_pos_example = decode_string_pos (2 ∷ 104 ∷ 105 ∷ []) 0 (omega arith)

-- Two entries of 34 bytes each.
abbrev first : HpackTableEntry
first = record { name = 97 ∷ []; value = 98 ∷ [] }

abbrev second : HpackTableEntry
second = record { name = 99 ∷ []; value = 100 ∷ [] }

abbrev two_entries : HpackContext
two_entries = context (second ∷ first ∷ []) 8 4096

two_entries-IsBounded : IsBounded two_entries
two_entries-IsBounded = record { within_max = omega arith; within_capacity = omega arith }

update_table_size_example : update_table_size two_entries 40 ≡ record two_entries {
  dynamic_table = fitting 40 (second ∷ first ∷ []);
  dynamic_table_max_size = 40;
}
update_table_size_example = update_table_size_lem two_entries 40

add_to_dynamic_table_example :
    (add_to_dynamic_table two_entries first).dynamic_table
    ≡ (if ltb 4096 34 then [] else first ∷ fitting (4096 - 34) (second ∷ first ∷ []))
add_to_dynamic_table_example = add_to_dynamic_table_lem two_entries first

update_table_size-IsBounded_example : IsBounded (update_table_size two_entries 40)
update_table_size-IsBounded_example =
    update_table_size-IsBounded two_entries 40 two_entries-IsBounded

add_to_dynamic_table-IsBounded_example : IsBounded (add_to_dynamic_table two_entries first)
add_to_dynamic_table-IsBounded_example =
    add_to_dynamic_table-IsBounded two_entries first two_entries-IsBounded

-- An indexed field (`:status: 200`), then a literal with indexing (`hi: hi`).
abbrev block : List ℕ
block = 136 ∷ 64 ∷ 2 ∷ 104 ∷ 105 ∷ 2 ∷ 104 ∷ 105 ∷ []

block_decodes :
    (decode_headers_frame (some []) err_none block two_entries).headers
    ≡ some (
        record { name = codes ":status"; value = codes "200" }
        ∷ record { name = hi; value = hi }
        ∷ [])
unfolding decode_headers_frame hpack_decode_integer hpack_decode_string get_header_from_table
block_decodes = refl

decode_headers_frame-Runs_example :
    Runs block
      (initial (some []) err_none two_entries)
      (decode_headers_frame (some []) err_none block two_entries)
decode_headers_frame-Runs_example =
    decode_headers_frame-Runs (some []) err_none block two_entries (omega arith)

decode_headers_frame_bounds_example :
    IsBounded (decode_headers_frame (some []) err_none block two_entries).ctx
    × (headers_count (decode_headers_frame (some []) err_none block two_entries).headers ≤ 64)
    × ((decode_headers_frame (some []) err_none block two_entries).pos ≤ length block)
decode_headers_frame_bounds_example =
    decode_headers_frame_bounds (some []) err_none block two_entries two_entries-IsBounded
      (omega arith)
