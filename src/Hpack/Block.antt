-- ===== src/Hpack/Block.antt =====
-- `decodeHeadersFrame` of src/Http2ResponseHandler.c: the decoder of a response header block.
-- A missing `headers` array stands for the NULL of a scratch decode; allocations succeed, so that
-- `addToDynamicTable` reports no error. What the source only logs is left out.
pub mod Steps
pub mod Bounds
use http_request_client.Prelude.{
  ℕ, zero, suc, ◌-◌, ◌/◌, ◌%◌, List, [], ◌∷◌, ◌++◌, Option, none, some, Bool, true, false, ltb, leb,
  ◌==◌, ◌&&◌, if◌then◌else◌, length, get_or,
}
use http_request_client.Errors.{Error, err_response_decoding_headers_frame_failed}
use http_request_client.Hpack.Integer.{hpack_decode_integer}
use http_request_client.Hpack.Strings.{hpack_decode_string}
use http_request_client.Hpack.Table.Static.{HpackTableEntry}
use http_request_client.Hpack.Table.{
  HpackContext, dynamic_table_size, static_table_count, get_header_from_table, add_to_dynamic_table,
  update_table_size,
}

-- `name` and `value` of the struct; the list of them is the array with `numHeaders`.
pub record ResponseHeader : Type 0 where
  pub name : List ℕ
  pub value : List ℕ

-- `RESPONSE_HEADERS_MAX_SIZE`.
abbrev pub response_headers_max_size : ℕ
response_headers_max_size = 64

-- What the loop changes: the position, the context, and two fields of the stream.
pub record Decoding : Type 0 where
  pub pos : ℕ
  pub ctx : HpackContext
  pub headers : Option (List ResponseHeader)
  pub error : Error

-- How one round of the loop ends: it goes on with the next, or a `break` leaves the loop.
pub data Round : Type 0 where
  next : Decoding → Round
  break : Decoding → Round

abbrev failed : Decoding → Decoding
failed s = record s { error = err_response_decoding_headers_frame_failed }

-- The end of the loop's body: the header is stored, up to the limit, or discarded.
unfoldable pub store_header : Decoding → ResponseHeader → Round
store_header s h = elim s.headers [
  | none ↦ Round.next s
  | some hs ↦
      if ltb (length hs) response_headers_max_size
      then Round.next (record s { headers = some (hs ++ (h ∷ [])) })
      else Round.break s
]

-- 001x xxxx
unfoldable pub decode_size_update : List ℕ → Decoding → Round
decode_size_update payload s =
    let (max_size, pos) = hpack_decode_integer payload s.pos 5 in
    Round.next (record s { pos = pos; ctx = update_table_size s.ctx max_size })

-- 1xxx xxxx
unfoldable pub decode_indexed : List ℕ → Decoding → Round
unfolding store_header
decode_indexed payload s =
    let (index, pos) = hpack_decode_integer payload s.pos 7 in
    let moved = record s { pos = pos } in
    let entry = get_header_from_table index s.ctx in
    if index == 0
    then Round.next (failed moved)
    else if leb static_table_count index
        && leb (dynamic_table_size s.ctx) (index - (static_table_count - 1) - 1)
    then Round.next (failed moved)
    else store_header moved (record { name = entry.name; value = entry.value })

-- The value of a literal, which is always a string; `add` is `shouldAddToDynamicTable`.
unfoldable pub decode_value : Bool → List ℕ → Decoding → List ℕ → Round
unfolding store_header
decode_value add payload s name =
    let (decoded, pos) = hpack_decode_string payload s.pos in
    elim decoded [
      | none ↦ Round.break (failed (record s { pos = pos }))
      | some value ↦
          let added = add_to_dynamic_table s.ctx (record { name = name; value = value }) in
          store_header (record s { pos = pos; ctx = if add then added else s.ctx })
            (record { name = name; value = value })
    ]

-- A literal whose name is a string too.
unfoldable pub decode_name : Bool → List ℕ → Decoding → Round
unfolding decode_value
decode_name add payload s =
    let (decoded, pos) = hpack_decode_string payload s.pos in
    elim decoded [
      | none ↦ Round.break (failed (record s { pos = pos }))
      | some name ↦ decode_value add payload (record s { pos = pos }) name
    ]

-- The name of a literal: a table entry's, or a string.
unfoldable pub decode_literal : Bool → ℕ → List ℕ → Decoding → Round
unfolding decode_name
decode_literal add prefix_size payload s =
    let (index, pos) = hpack_decode_integer payload s.pos prefix_size in
    let moved = record s { pos = pos } in
    if ltb 0 index
    then decode_value add payload moved (get_header_from_table index s.ctx).name
    else decode_name add payload moved

-- One round of the loop: the first byte selects the representation.
unfoldable pub decode_field : List ℕ → Decoding → Round
unfolding decode_size_update decode_indexed decode_literal
decode_field payload s =
    let first_byte = get_or payload s.pos 0 in
    if first_byte / 32 % 8 == 1
    then decode_size_update payload s
    else if first_byte / 128 % 2 == 1
    then decode_indexed payload s
    else if first_byte / 64 % 2 == 1
    then decode_literal true 6 payload s
    else decode_literal false 4 payload s

abbrev pub round_state : Round → Decoding
round_state (Round.next s) = s
round_state (Round.break s) = s

abbrev pub if_next : Round → Decoding → Decoding
if_next (Round.next s) more = more
if_next (Round.break s) more = s

-- `while (pos < length)`
unfoldable pub decode_fields : ℕ → List ℕ → Decoding → Decoding
unfolding decode_field
decode_fields zero payload s = s
decode_fields (suc fuel) payload s =
    let round = decode_field payload s in
    let more = decode_fields fuel payload (round_state round) in
    if ltb s.pos (length payload) then if_next round more else s

abbrev cleared : Option (List ResponseHeader) → Option (List ResponseHeader)
cleared none = none
cleared (some hs) = some []

-- The stream's headers and error go in and come out; `numHeaders` is reset first.
unfoldable pub decode_headers_frame :
    Option (List ResponseHeader) → Error → List ℕ → HpackContext → Decoding
unfolding decode_fields
decode_headers_frame headers error payload ctx =
    let decoded =
      decode_fields (length payload) payload
        (record { pos = 0; ctx = ctx; headers = cleared headers; error = error }) in
    if length payload == 0
    then record { pos = 0; ctx = ctx; headers = headers; error = error }
    else decoded
