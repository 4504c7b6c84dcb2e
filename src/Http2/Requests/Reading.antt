-- ===== src/Http2/Requests/Reading.antt =====
-- What the decoder of header blocks makes of a request's headers.
use Prim.Native.Nat.{bit_or}
use http_request_client.Prelude.{
  ℕ, suc, ◌+◌, ◌-◌, ◌/◌, ◌%◌, ◌^◌, ◌≤◌, ◌<◌, ◌≡◌, ◌≢◌, refl, sym, ap, ap₂, ◌∙◌, inl, inr, List, [],
  ◌∷◌, ◌++◌, append_assoc, Option, none, some, Bool, true, false, ltb, leb, ◌==◌, if◌then◌else◌,
  length, drop, All, arith, Option-cases, if_true, if_false, length-append, drop-append,
  drop-cons_lt, get_or-drop, lt→leb, lt→ltb, if_true, if_false,
}
use mathlib.Core.Path.{subst}
use http_request_client.Prelude.Text.{str_case_eq}
use http_request_client.Prelude.Bits.{bit_or-shifted}
use http_request_client.Hpack.Huffman.{hpack_huffman_encode}
use http_request_client.Hpack.Huffman.Encoding.{IsEncodable}
use http_request_client.Hpack.Integer.{hpack_decode_integer, hpack_encode_integer}
use http_request_client.Hpack.Strings.{hpack_decode_string, huffman_bytes}
use http_request_client.Hpack.Strings.RoundTrip.{decode-huffman_bytes}
use http_request_client.Hpack.Table.{HpackContext, add_to_dynamic_table, get_header_from_table}
use http_request_client.Hpack.Table.Static.{HpackTableEntry}
use http_request_client.Hpack.Block.{
  Decoding, ResponseHeader, decode_field, decode_literal, decode_name, decode_value, store_header,
}
use http_request_client.Request.Order.{RequestHeader}
use http_request_client.Http2.Requests.{
  find_entry, huffman_name, huffman_string, request_header_static_table,
}
use http_request_client.Http2.Requests.Lookup.{static_name, request_header_static_table-IsFound}

-- An index below the largest prefix stands in one byte.
pub small_integer :
    (payload : List ℕ) (pos bits b : ℕ) (tail : List ℕ)
    → drop pos payload ≡ b ∷ tail
    → (b % 2 ^ bits == 2 ^ bits - 1) ≡ false
    → hpack_decode_integer payload pos bits ≡ (b % 2 ^ bits, suc pos)
unfolding hpack_decode_integer
small_integer payload pos bits b tail here small =
    rw (hpack_decode_integer, get_or-drop payload pos 0 b tail here)
      (if_false (leb (length payload) pos) _ _
          (lt→leb (length payload) pos (drop-cons_lt payload pos b tail here))
        ∙ if_false (b % 2 ^ bits == 2 ^ bits - 1) _ _ small)

pub huffman_string_lem : (text : List ℕ) → huffman_string text ≡ huffman_bytes text
unfolding huffman_string huffman_bytes
huffman_string_lem [] = unfold hpack_huffman_encode hpack_encode_integer in refl
huffman_string_lem (c ∷ cs) = refl

or_mod : (n : ℕ) → n < 128 → bit_or 128 n ≡ bit_or 128 n % 256
or_mod n h = rw (bit_or-shifted 7 1 n h) (omega arith)

pub huffman_name_lem :
    (text : List ℕ)
    → length (hpack_huffman_encode text) < 127
    → huffman_name text ≡ huffman_bytes text
unfolding huffman_name huffman_string hpack_encode_integer
huffman_name_lem text short =
    let n = length (hpack_huffman_encode text) in
    let same : huffman_name text ≡ huffman_string text =
      if_true (ltb n 128) _ _ (lt→ltb n 128 (omega arith))
      ∙ ap (λ (b : ℕ). b ∷ hpack_huffman_encode text) (or_mod n (omega arith))
      ∙ ap (λ t. t ++ hpack_huffman_encode text)
          (sym (if_true (ltb n 127) _ _ (lt→ltb n 127 short))) in
    same ∙ huffman_string_lem text

-- A text that the Huffman code can carry, in no more bytes than it has.
pub record IsText (text : List ℕ) : Type 0 where
  pub encodable : All IsEncodable text
  pub no_zero : All (λ c. c ≢ 0) text
  pub short : length (hpack_huffman_encode text) < 2 ^ 35
  pub compact : length (hpack_huffman_encode text) ≤ length text

-- Two steps of the decoder at a string, for a name and for a value.
reads_text :
    (text pre rest : List ℕ) (payload : List ℕ)
    → IsText text
    → payload ≡ pre ++ (huffman_bytes text ++ rest)
    → hpack_decode_string payload (length pre) ≡ (some text, length (pre ++ huffman_bytes text))
reads_text text pre rest payload h same =
    ap (λ t. hpack_decode_string t (length pre)) same
    ∙ decode-huffman_bytes text pre rest h.encodable h.no_zero h.short
    ∙ ap (λ (n : ℕ). (some text, n)) (sym (length-append pre (huffman_bytes text)))

-- A round of the decoder reads one field, and the table may change.
pub record IsFieldRead (payload : List ℕ) (s : Decoding) (h : ResponseHeader) (end : ℕ)
    : Type 0 where
  pub table : HpackContext
  pub reads : decode_field payload s ≡ store_header (record s { pos = end; ctx = table }) h

value_read :
    (add : Bool) (payload : List ℕ) (s : Decoding) (name value : List ℕ) (end : ℕ)
    → hpack_decode_string payload s.pos ≡ (some value, end)
    → (ctx : HpackContext) × (decode_value add payload s name
        ≡ store_header (record s { pos = end; ctx = ctx }) (record { name = name; value = value }))
unfolding decode_value
value_read add payload s name value end e = (
  if add then add_to_dynamic_table s.ctx (record { name = name; value = value }) else s.ctx,
  rw (decode_value, ap (λ (t : Option (List ℕ) × ℕ). t.0) e)
      (ap
        (λ n.
          store_header
            (record s {
              pos = n;
              ctx =
                  if add
                  then add_to_dynamic_table s.ctx (record { name = name; value = value })
                  else s.ctx;
            })
            (record { name = name; value = value }))
        (ap (λ (t : Option (List ℕ) × ℕ). t.1) e)),
)

pub name_read :
    (add : Bool) (payload : List ℕ) (s : Decoding) (name : List ℕ) (end : ℕ)
    → hpack_decode_string payload s.pos ≡ (some name, end)
    → decode_name add payload s ≡ decode_value add payload (record s { pos = end }) name
unfolding decode_name
name_read add payload s name end e =
    rw
      (
        decode_name,
        ap (λ (t : Option (List ℕ) × ℕ). t.0) e,
        ap (λ (t : Option (List ℕ) × ℕ). t.1) e,
      )
      refl

-- The first byte decides how a field is written.
pub literal_field :
    (payload : List ℕ) (s : Decoding) (tail : List ℕ)
    → drop s.pos payload ≡ 0 ∷ tail
    → decode_field payload s ≡ decode_name false payload (record s { pos = suc s.pos })
unfolding decode_field decode_literal
literal_field payload s tail here =
    rw
      (
        decode_field,
        get_or-drop payload s.pos 0 0 tail here,
        small_integer payload s.pos 4 0 tail here refl,
      )
      refl

static_lookup :
    (index : ℕ) (ctx : HpackContext)
    → 0 < index
    → index ≤ 61
    → (get_header_from_table index ctx).name ≡ static_name index
unfolding get_header_from_table
static_lookup index ctx low high =
    ap (λ (t : HpackTableEntry). t.name)
      (if_false (index == 0) _ _ (ground arith) ∙ if_true (leb index 61) _ _ (ground arith))

indexed_field :
    (payload : List ℕ) (s : Decoding) (index : ℕ) (tail : List ℕ)
    → drop s.pos payload ≡ (64 + index) ∷ tail
    → 0 < index
    → index ≤ 61
    → decode_field payload s
      ≡ decode_value true payload (record s { pos = suc s.pos }) (static_name index)
unfolding decode_field decode_literal
indexed_field payload s index tail here low high =
    let integer : hpack_decode_integer payload s.pos 6 ≡ (index, suc s.pos) =
      small_integer payload s.pos 6 (64 + index) tail here (ground arith)
      ∙ ap (λ (n : ℕ). (n, suc s.pos)) (omega arith) in
    let update : ((64 + index) / 32 % 8 == 1) ≡ false = ground arith in
    let whole : ((64 + index) / 128 % 2 == 1) ≡ false = ground arith in
    let incremental : ((64 + index) / 64 % 2 == 1) ≡ true = ground arith in
    rw
      (
        decode_field,
        get_or-drop payload s.pos 0 (64 + index) tail here,
        update,
        whole,
        incremental,
        integer,
        lt→ltb 0 index low,
      )
      (ap (decode_value true payload (record s { pos = suc s.pos }))
        (static_lookup index s.ctx low high))

pub str_case_eq_refl : (s : List ℕ) → str_case_eq s s ≡ true
unfolding str_case_eq
str_case_eq_refl [] = refl
str_case_eq_refl (c ∷ cs) = ground (arith, str_case_eq_refl cs)

-- What the decoder gives back of a header: the name as the table spells it, or as it was.
abbrev pub name_or : Option ℕ → List ℕ → List ℕ
name_or none name = name
name_or (some index) name = static_name index

abbrev pub decoded_header : RequestHeader → ResponseHeader
decoded_header h = record {
  name = name_or (find_entry request_header_static_table h.name) h.name;
  value = h.value;
}

pub record IsSendable (h : RequestHeader) : Type 0 where
  pub name : IsText h.name
  pub value : IsText h.value
  pub short_name : length (hpack_huffman_encode h.name) < 127

-- The position behind a part of the payload.
pub ends_at :
    (payload : List ℕ) (s : Decoding) (h : ResponseHeader) (end end' : ℕ)
    → end ≡ end'
    → IsFieldRead payload s h end
    → IsFieldRead payload s h end'
ends_at payload s h end end' e p = subst (IsFieldRead payload s h) e p

-- The value of a field, at the end of its bytes.
pub finishes :
    (add : Bool) (payload pre rest value name : List ℕ) (s t : Decoding)
    → IsText value
    → payload ≡ pre ++ (huffman_bytes value ++ rest)
    → t.pos ≡ length pre
    → record t { pos = 0 } ≡ record s { pos = 0 }
    → decode_field payload s ≡ decode_value add payload t name
    → IsFieldRead payload s
        (record { name = name; value = value })
        (length (pre ++ huffman_bytes value))
finishes add payload pre rest value name s t text same at_pre kept begins =
    let end = length (pre ++ huffman_bytes value) in
    let read =
      value_read add payload t name value end
        (ap (hpack_decode_string payload) at_pre ∙ reads_text value pre rest payload text same) in
    record {
      table = read.0;
      reads =
          begins
          ∙ read.1
          ∙ ap
              (λ (u : Decoding).
                store_header (record u { pos = end; ctx = read.0 })
                  (record { name = name; value = value }))
              kept;
    }

pub static_read :
    (pre rest value : List ℕ) (index : ℕ) (payload : List ℕ) (s : Decoding)
    → IsText value
    → 0 < index
    → index ≤ 61
    → payload ≡ pre ++ (((64 + index) ∷ huffman_bytes value) ++ rest)
    → s.pos ≡ length pre
    → IsFieldRead payload s
        (record { name = static_name index; value = value })
        (length (pre ++ ((64 + index) ∷ huffman_bytes value)))
static_read pre rest value index payload s text low high same at_pre =
    let first = (64 + index) ∷ [] in
    let behind = huffman_bytes value ++ rest in
    let here : drop s.pos payload ≡ (64 + index) ∷ behind =
      ap₂ drop at_pre same ∙ drop-append pre ((64 + index) ∷ behind) in
    ends_at payload s _ _ _ (ap length (append_assoc pre first (huffman_bytes value))) (
      finishes true payload (pre ++ first) rest value (static_name index) s
        (record s { pos = suc s.pos }) text (same ∙ sym (append_assoc pre first behind))
        (omega (arith, at_pre, length-append pre first)) refl
        (indexed_field payload s index behind here low high))

pub plain_read :
    (pre rest name value : List ℕ) (payload : List ℕ) (s : Decoding)
    → IsText name
    → IsText value
    → payload ≡ pre ++ ((0 ∷ (huffman_bytes name ++ huffman_bytes value)) ++ rest)
    → s.pos ≡ length pre
    → IsFieldRead payload s
        (record { name = name; value = value })
        (length (pre ++ (0 ∷ (huffman_bytes name ++ huffman_bytes value))))
plain_read pre rest name value payload s name_text value_text same at_pre =
    let named = huffman_bytes name in
    let valued = huffman_bytes value in
    let first : List ℕ = 0 ∷ [] in
    let behind = (named ++ valued) ++ rest in
    let here : drop s.pos payload ≡ 0 ∷ behind =
      ap₂ drop at_pre same ∙ drop-append pre (0 ∷ behind) in
    let at_name : payload ≡ (pre ++ first) ++ (named ++ (valued ++ rest)) =
      same
      ∙ sym (append_assoc pre first behind)
      ∙ ap (◌++◌ (pre ++ first)) (append_assoc named valued rest) in
    let at_value : payload ≡ ((pre ++ first) ++ named) ++ (valued ++ rest) =
      at_name ∙ sym (append_assoc (pre ++ first) named (valued ++ rest)) in
    let next : suc s.pos ≡ length (pre ++ first) = omega (arith, at_pre, length-append pre first) in
    let name_end = length ((pre ++ first) ++ named) in
    ends_at payload s _ _ _
      (ap length
        (append_assoc (pre ++ first) named valued ∙ append_assoc pre first (named ++ valued)))
      (finishes false payload ((pre ++ first) ++ named) rest value name s
        (record s { pos = name_end }) value_text at_value refl refl
        (literal_field payload s behind here
          ∙ name_read false payload (record s { pos = suc s.pos }) name name_end
              (ap (hpack_decode_string payload) next
                ∙ reads_text name (pre ++ first) (valued ++ rest) payload name_text at_name)))

pub decoded_name : (h : RequestHeader) → str_case_eq h.name (decoded_header h).name ≡ true
decoded_name h = elim (Option-cases (find_entry request_header_static_table h.name)) [
  | inl none_found ↦ rw none_found (str_case_eq_refl h.name)
  | inr (index, found) ↦ rw found (request_header_static_table-IsFound h.name index found).same_name
]
