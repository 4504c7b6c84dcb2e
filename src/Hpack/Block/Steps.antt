-- ===== src/Hpack/Block/Steps.antt =====
-- The loop of decodeHeadersFrame and its step relation.
use http_request_client.Prelude.{
  ℕ, zero, suc, ◌+◌, ◌-◌, ◌/◌, ◌%◌, ◌≤◌, ◌<◌, ◌≡◌, refl, ap, inl, inr, List, [], ◌∷◌, Option, none,
  some, Bool, true, false, ltb, leb, ◌==◌, ◌&&◌, if◌then◌else◌, length, get_or, arith, Bool-cases,
  Option-cases, length-append, ltb→lt,
}
use http_request_client.Errors.{Error, err_response_decoding_headers_frame_failed}
use http_request_client.Hpack.Integer.{hpack_decode_integer}
use http_request_client.Hpack.Integer.Bounds.{decode_integer_pos}
use http_request_client.Hpack.Strings.{hpack_decode_string}
use http_request_client.Hpack.Strings.Bounds.{decode_string_pos, decode_string_end}
use http_request_client.Hpack.Table.{
  HpackContext, dynamic_table_size, static_table_count, get_header_from_table, add_to_dynamic_table,
}
use http_request_client.Hpack.Table.Static.{HpackTableEntry}
use http_request_client.Hpack.Table.Bounds.{
  IsBounded, update_table_size-IsBounded, add_to_dynamic_table-IsBounded,
}
use http_request_client.Hpack.Block.{
  Round, Decoding, ResponseHeader, store_header, decode_size_update, decode_indexed, decode_value,
  decode_name, decode_literal, decode_field, round_state, decode_fields, if_next,
}

-- The loop as a relation between the state at its head and the state behind it.
pub data Runs (payload : List ℕ) : Decoding → Decoding → Type 0 where
  -- `pos < length` fails
  at_end : {s : Decoding} → length payload ≤ s.pos → Runs payload s s
  -- a round ends in `break`
  breaks :
      {s s' : Decoding}
      → s.pos < length payload
      → decode_field payload s ≡ Round.break s'
      → Runs payload s s'
  -- a round ends, and the loop goes on
  goes_on :
      {s s' s'' : Decoding}
      → s.pos < length payload
      → decode_field payload s ≡ Round.next s'
      → Runs payload s' s''
      → Runs payload s s''

abbrev pub headers_count : Option (List ResponseHeader) → ℕ
headers_count none = 0
headers_count (some hs) = length hs

-- What a round's work keeps: the position goes forward inside the payload, the table stays bounded,
-- and the headers stay within their array.
pub record Advances (payload : List ℕ) (from : ℕ) (s s' : Decoding) : Type 0 where
  pub ahead : from ≤ s'.pos
  pub inside : s'.pos ≤ length payload
  pub table : IsBounded s.ctx → IsBounded s'.ctx
  pub stored : headers_count s.headers ≤ 64 → headers_count s'.headers ≤ 64

-- The same for the state in which a round ends.
record Ends (payload : List ℕ) (from : ℕ) (s : Decoding) (r : Round) : Type 0 where
  ends : Advances payload from s (round_state r)

pick-Ends :
    {payload : List ℕ} {from : ℕ} {s : Decoding} {r t : Round} (b : Bool)
    → Ends payload from s r
    → Ends payload from s t
    → Ends payload from s (if b then r else t)
pick-Ends true p q = p
pick-Ends false p q = q

-- The work before and after an intermediate state.
then-Ends :
    (payload : List ℕ) (from : ℕ) (s t : Decoding) (r : Round)
    → Advances payload from s t
    → Ends payload t.pos t r
    → Ends payload from s r
then-Ends payload from s t r p q = record {
  ends = record {
    ahead = omega (arith, p.ahead, q.ends.ahead);
    inside = q.ends.inside;
    table = λ b. q.ends.table (p.table b);
    stored = λ b. q.ends.stored (p.stored b);
  };
}

store_header-Ends :
    (payload : List ℕ) (s : Decoding) (h : ResponseHeader)
    → s.pos ≤ length payload
    → Ends payload s.pos s (store_header s h)
unfolding store_header
store_header-Ends payload s h inside = elim (Option-cases s.headers) [
  | inl e ↦ rw e (record {
    ends = record {
      ahead = omega arith;
      inside = inside;
      table = λ b. b;
      stored = λ b. omega arith;
    };
  })
  | inr (hs, e) ↦ rw e (elim (Bool-cases (ltb (length hs) 64)) [
    | inl room ↦ rw room (record {
      ends = record {
        ahead = omega arith;
        inside = inside;
        table = λ b. b;
        stored = λ b. omega (arith, length-append hs (h ∷ []), ltb→lt (length hs) 64 room);
      };
    })
    | inr full ↦ rw full (record {
      ends = record { ahead = omega arith; inside = inside; table = λ b. b; stored = λ b. b };
    })
  ])
]

-- Moving the position, with a new error or not.
moved :
    (payload : List ℕ) (from pos : ℕ) (s : Decoding) (error : Error)
    → from ≤ pos
    → pos ≤ length payload
    → Advances payload from s (record s { pos = pos; error = error })
moved payload from pos s error ahead inside = record {
  ahead = ahead;
  inside = inside;
  table = λ b. b;
  stored = λ b. b;
}

-- The string decoder's position, at the end of the payload too.
decode_string_forward :
    (payload : List ℕ) (pos : ℕ)
    → pos ≤ length payload
    → (pos ≤ (hpack_decode_string payload pos).1)
      × ((hpack_decode_string payload pos).1 ≤ length payload)
decode_string_forward payload pos h = elim (Bool-cases (ltb pos (length payload))) [
  | inl inside ↦ let p = decode_string_pos payload pos (ground arith) in (omega arith, p.1)
  | inr outside ↦
      let end : length payload ≤ pos = ground arith in
      rw (decode_string_end payload pos end) (omega arith, h)
]

added-IsBounded :
    (add : Bool) (ctx : HpackContext) (e : HpackTableEntry)
    → IsBounded ctx
    → IsBounded (if add then add_to_dynamic_table ctx e else ctx)
added-IsBounded true ctx e b = add_to_dynamic_table-IsBounded ctx e b
added-IsBounded false ctx e b = b

decode_value-Ends :
    (add : Bool) (payload : List ℕ) (s : Decoding) (name : List ℕ)
    → s.pos ≤ length payload
    → Ends payload s.pos s (decode_value add payload s name)
unfolding decode_value
decode_value-Ends add payload s name h =
    let (ahead, inside) = decode_string_forward payload s.pos h in
    let pos = (hpack_decode_string payload s.pos).1 in
    elim (Option-cases (hpack_decode_string payload s.pos).0) [
      | inl e ↦
          rw (decode_value, e)
            (record {
              ends =
                  moved payload s.pos pos s err_response_decoding_headers_frame_failed ahead inside;
            })
      | inr (value, e) ↦
          let h : ResponseHeader = record { name = name; value = value } in
          let field : HpackTableEntry = record { name = name; value = value } in
          let t : Decoding = record s {
            pos = pos;
            ctx = if add then add_to_dynamic_table s.ctx field else s.ctx;
          } in
          let p : Advances payload s.pos s t = record {
            ahead = ahead;
            inside = inside;
            table = added-IsBounded add s.ctx field;
            stored = λ b. b;
          } in
          rw (decode_value, e)
            (then-Ends payload s.pos s t (store_header t h) p
              (store_header-Ends payload t h inside))
    ]

decode_name-Ends :
    (add : Bool) (payload : List ℕ) (s : Decoding)
    → s.pos ≤ length payload
    → Ends payload s.pos s (decode_name add payload s)
unfolding decode_name
decode_name-Ends add payload s h =
    let (ahead, inside) = decode_string_forward payload s.pos h in
    let pos = (hpack_decode_string payload s.pos).1 in
    elim (Option-cases (hpack_decode_string payload s.pos).0) [
      | inl e ↦
          rw (decode_name, e)
            (record {
              ends =
                  moved payload s.pos pos s err_response_decoding_headers_frame_failed ahead inside;
            })
      | inr (name, e) ↦
          let t : Decoding = record s { pos = pos } in
          rw (decode_name, e)
            (then-Ends payload s.pos s t (decode_value add payload t name)
              (moved payload s.pos pos s s.error ahead inside)
              (decode_value-Ends add payload t name inside))
    ]

decode_literal-Ends :
    (add : Bool) (bits : ℕ) (payload : List ℕ) (s : Decoding)
    → s.pos < length payload
    → Ends payload (suc s.pos) s (decode_literal add bits payload s)
unfolding decode_literal
decode_literal-Ends add bits payload s h =
    let (ahead, inside) = decode_integer_pos payload s.pos bits h in
    let (index, pos) = hpack_decode_integer payload s.pos bits in
    let t : Decoding = record s { pos = pos } in
    let name = (get_header_from_table index s.ctx).name in
    let p = moved payload (suc s.pos) pos s s.error ahead inside in
    pick-Ends (ltb 0 index)
      (then-Ends payload (suc s.pos) s t (decode_value add payload t name) p
        (decode_value-Ends add payload t name inside))
      (then-Ends payload (suc s.pos) s t (decode_name add payload t) p
        (decode_name-Ends add payload t inside))

decode_indexed-Ends :
    (payload : List ℕ) (s : Decoding)
    → s.pos < length payload
    → Ends payload (suc s.pos) s (decode_indexed payload s)
unfolding decode_indexed
decode_indexed-Ends payload s h =
    let (ahead, inside) = decode_integer_pos payload s.pos 7 h in
    let (index, pos) = hpack_decode_integer payload s.pos 7 in
    let t : Decoding = record s { pos = pos } in
    let entry = get_header_from_table index s.ctx in
    let header : ResponseHeader = record { name = entry.name; value = entry.value } in
    let p = moved payload (suc s.pos) pos s s.error ahead inside in
    let q : Ends payload (suc s.pos) s
        (Round.next (record s { pos = pos; error = err_response_decoding_headers_frame_failed })) =
      record {
        ends =
            moved payload (suc s.pos) pos s err_response_decoding_headers_frame_failed ahead inside;
      } in
    pick-Ends (index == 0) q (
      pick-Ends
        (leb static_table_count index
          && leb (dynamic_table_size s.ctx) (index - (static_table_count - 1) - 1))
        q
        (then-Ends payload (suc s.pos) s t (store_header t header) p
          (store_header-Ends payload t header inside)))

decode_size_update-Ends :
    (payload : List ℕ) (s : Decoding)
    → s.pos < length payload
    → Ends payload (suc s.pos) s (decode_size_update payload s)
unfolding decode_size_update
decode_size_update-Ends payload s h =
    let (ahead, inside) = decode_integer_pos payload s.pos 5 h in
    record {
      ends = record {
        ahead = ahead;
        inside = inside;
        table = update_table_size-IsBounded s.ctx (hpack_decode_integer payload s.pos 5).0;
        stored = λ b. b;
      };
    }

-- Every round takes at least one byte, and keeps the bounds.
decode_field-Ends :
    (payload : List ℕ) (s : Decoding)
    → s.pos < length payload
    → Ends payload (suc s.pos) s (decode_field payload s)
unfolding decode_field
decode_field-Ends payload s h =
    let first_byte = get_or payload s.pos 0 in
    pick-Ends (first_byte / 32 % 8 == 1) (decode_size_update-Ends payload s h) (
      pick-Ends (first_byte / 128 % 2 == 1) (decode_indexed-Ends payload s h) (
        pick-Ends (first_byte / 64 % 2 == 1) (decode_literal-Ends true 6 payload s h)
          (decode_literal-Ends false 4 payload s h)))

-- As much fuel as there are bytes left is enough.
pub decode_fields-Runs :
    (fuel : ℕ) (payload : List ℕ) (s : Decoding)
    → length payload ≤ s.pos + fuel
    → Runs payload s (decode_fields fuel payload s)
unfolding decode_fields
decode_fields-Runs zero payload s h = Runs.at_end (omega arith)
decode_fields-Runs (suc fuel) payload s h = elim (Bool-cases (ltb s.pos (length payload))) [
  | inl inside ↦
      let lt : s.pos < length payload = ground arith in
      let p = (decode_field-Ends payload s lt).ends.ahead in
      rw inside (
        go (decode_field payload s) refl lt
          (decode_fields-Runs fuel payload (round_state (decode_field payload s)) (omega arith)))
  | inr outside ↦ rw outside (Runs.at_end (ground arith))
]
  where
    go :
        (r : Round)
        → decode_field payload s ≡ r
        → s.pos < length payload
        → Runs payload (round_state r) (decode_fields fuel payload (round_state r))
        → Runs payload s (if_next r (decode_fields fuel payload (round_state r)))
    go (Round.next s') e lt rest = Runs.goes_on lt e rest
    go (Round.break s') e lt rest = Runs.breaks lt e

-- What holds of each round holds of the loop.
pub Runs-Advances :
    (payload : List ℕ) (s s' : Decoding)
    → s.pos ≤ length payload
    → Runs payload s s'
    → Advances payload s.pos s s'
Runs-Advances payload s s' h (Runs.at_end past) =
    moved payload s.pos s.pos s s.error (omega arith) h
Runs-Advances payload s s' h (Runs.breaks lt e) =
    let p : Advances payload (suc s.pos) s s' =
      rw⁻¹ (ap round_state e) (decode_field-Ends payload s lt).ends in
    record { ahead = omega (arith, p.ahead); inside = p.inside; table = p.table; stored = p.stored }
Runs-Advances payload s s'' h (Runs.goes_on {s' = t} lt e rest) =
    let p : Advances payload (suc s.pos) s t =
      rw⁻¹ (ap round_state e) (decode_field-Ends payload s lt).ends in
    let q = Runs-Advances payload t s'' p.inside rest in
    record {
      ahead = omega (arith, p.ahead, q.ahead);
      inside = q.inside;
      table = λ b. q.table (p.table b);
      stored = λ b. q.stored (p.stored b);
    }
