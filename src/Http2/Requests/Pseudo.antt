-- ===== src/Http2/Requests/Pseudo.antt =====
-- What the decoder of header blocks makes of a request's pseudo headers.
use http_request_client.Prelude.{
  ℕ, suc, ◌+◌, ◌-◌, ◌^◌, ◌<◌, ◌≡◌, ◌≢◌, refl, sym, ap, ap₂, ◌∙◌, inl, inr, ◌⊎◌, List, [], ◌∷◌, ◌++◌,
  append_assoc, some, Bool, true, false, ◌||◌, ◌≤◌, length, drop, All, arith, Bool-cases,
  length-append, lt→ltb, drop-append, get_or-drop,
}
use http_request_client.Prelude.Text.{codes, str_case_eq}
use http_request_client.Hpack.Integer.{hpack_decode_integer, hpack_encode_integer}
use http_request_client.Hpack.Strings.{hpack_decode_string, huffman_bytes, write_huffman_value}
use http_request_client.Hpack.Strings.RoundTrip.{write_huffman_value-written}
use http_request_client.Hpack.Huffman.Size.{length-encode}
use http_request_client.Http2.Requests.Writing.{huffman_bytes_size}
use http_request_client.Hpack.Table.{get_header_from_table}
use http_request_client.Hpack.Table.Static.{response_header_static_table}
use http_request_client.Hpack.Block.{
  Decoding, ResponseHeader, Round, decode_field, decode_indexed, store_header,
}
use http_request_client.Request.Order.{RequestHeader}
use http_request_client.Http2.Requests.{Written, hpack_pseudo_headers, raw_literal}
use http_request_client.Http2.Requests.Reading.{
  IsFieldRead, IsSendable, IsText, ends_at, finishes, literal_field, name_read, small_integer,
  static_read, str_case_eq_refl,
}
use http_request_client.Http2.Requests.Lookup.{static_name}
use http_request_client.Http2.Requests.Raw.{decode-raw_string}

-- What the peer reads of a header: the name and the value, where case is not told apart in the name,
-- nor in the value of a pseudo header.
pub record IsMeant (h : RequestHeader) (d : ResponseHeader) : Type 0 where
  pub name : str_case_eq h.name d.name ≡ true
  pub value : (d.value ≡ h.value) ⊎ ((h.is_pseudo ≡ true) × (str_case_eq h.value d.value ≡ true))

-- The bytes of one header, read wherever they stand.
pub record IsReadable (h : RequestHeader) (bytes : List ℕ) : Type 0 where
  pub decoded : ResponseHeader
  pub meant : IsMeant h decoded
  pub filled : 0 < length bytes
  pub reads :
      (pre rest payload : List ℕ) (s : Decoding)
      → payload ≡ pre ++ (bytes ++ rest)
      → s.pos ≡ length pre
      → IsFieldRead payload s decoded (length (pre ++ bytes))

length-str_case_eq : (a b : List ℕ) → str_case_eq a b ≡ true → length a ≡ length b
unfolding str_case_eq
length-str_case_eq [] [] h = refl
length-str_case_eq [] (y ∷ b) h = cc
length-str_case_eq (x ∷ a) [] h = cc
length-str_case_eq (x ∷ a) (y ∷ b) h = ground (arith, length-str_case_eq a b)

raw_read :
    (pre rest name value : List ℕ) (payload : List ℕ) (s : Decoding)
    → All (λ c. c ≢ 0) name
    → length name < 2 ^ 35
    → IsText value
    → payload
      ≡ pre
        ++ ((0 ∷ (hpack_encode_integer (length name) 7 0 ++ (name ++ huffman_bytes value))) ++ rest)
    → s.pos ≡ length pre
    → IsFieldRead payload s
        (record { name = name; value = value })
        (length
          (pre ++ (0 ∷ (hpack_encode_integer (length name) 7 0 ++ (name ++ huffman_bytes value)))))
raw_read pre rest name value payload s nz few value_text same at_pre =
    let size = hpack_encode_integer (length name) 7 0 in
    let valued = huffman_bytes value in
    let first : List ℕ = 0 ∷ [] in
    let behind = (size ++ (name ++ valued)) ++ rest in
    let here : drop s.pos payload ≡ 0 ∷ behind =
      ap₂ drop at_pre same ∙ drop-append pre (0 ∷ behind) in
    let at_name : payload ≡ (pre ++ first) ++ (size ++ (name ++ (valued ++ rest))) =
      same
      ∙ sym (append_assoc pre first behind)
      ∙ ap (◌++◌ (pre ++ first)) (
          append_assoc size (name ++ valued) rest
          ∙ ap (◌++◌ size) (append_assoc name valued rest)) in
    let at_value : payload ≡ (((pre ++ first) ++ size) ++ name) ++ (valued ++ rest) =
      at_name
      ∙ sym (append_assoc (pre ++ first) size (name ++ (valued ++ rest)))
      ∙ sym (append_assoc ((pre ++ first) ++ size) name (valued ++ rest)) in
    let next : suc s.pos ≡ length (pre ++ first) = omega (arith, at_pre, length-append pre first) in
    let name_end = length (((pre ++ first) ++ size) ++ name) in
    let string : hpack_decode_string payload (suc s.pos) ≡ (some name, name_end) =
      ap₂ hpack_decode_string at_name next
      ∙ decode-raw_string name (pre ++ first) (valued ++ rest) nz few
      ∙ ap (λ (n : ℕ). (some name, n))
          (omega (
            arith,
            length-append ((pre ++ first) ++ size) name,
            length-append (pre ++ first) size,
          )) in
    ends_at payload s _ _ _
      (ap length (
        append_assoc ((pre ++ first) ++ size) name valued
        ∙ append_assoc (pre ++ first) size (name ++ valued)
        ∙ append_assoc pre first (size ++ (name ++ valued))))
      (finishes false payload (((pre ++ first) ++ size) ++ name) rest value name s
        (record s { pos = name_end }) value_text at_value refl refl
        (literal_field payload s behind here
          ∙ name_read false payload (record s { pos = suc s.pos }) name name_end string))

-- An indexed field, behind its index.
at_index : Decoding → ℕ × ℕ → Round
at_index s (index, pos) =
    let found = get_header_from_table index s.ctx in
    store_header (record s { pos = pos }) (record { name = found.name; value = found.value })

-- GET and POST are entries 2 and 3 of the table.
get_read :
    (pre rest payload : List ℕ) (s : Decoding)
    → payload ≡ pre ++ ((130 ∷ []) ++ rest)
    → s.pos ≡ length pre
    → IsFieldRead payload s
        (record { name = codes ":method"; value = codes "GET" })
        (length (pre ++ (130 ∷ [])))
unfolding at_index decode_field decode_indexed get_header_from_table response_header_static_table
get_read pre rest payload s same at_pre =
    let here : drop s.pos payload ≡ 130 ∷ rest =
      ap₂ drop at_pre same ∙ drop-append pre (130 ∷ rest) in
    let integer : hpack_decode_integer payload s.pos 7 ≡ (2, suc s.pos) =
      small_integer payload s.pos 7 130 rest here refl in
    ends_at payload s _ (suc s.pos) _ (omega (arith, at_pre, length-append pre (130 ∷ [])))
      (record {
        table = s.ctx;
        reads =
            rw (decode_field, get_or-drop payload s.pos 0 130 rest here, integer)
              (ap (at_index s) integer);
      })

post_read :
    (pre rest payload : List ℕ) (s : Decoding)
    → payload ≡ pre ++ ((131 ∷ []) ++ rest)
    → s.pos ≡ length pre
    → IsFieldRead payload s
        (record { name = codes ":method"; value = codes "POST" })
        (length (pre ++ (131 ∷ [])))
unfolding at_index decode_field decode_indexed get_header_from_table response_header_static_table
post_read pre rest payload s same at_pre =
    let here : drop s.pos payload ≡ 131 ∷ rest =
      ap₂ drop at_pre same ∙ drop-append pre (131 ∷ rest) in
    let integer : hpack_decode_integer payload s.pos 7 ≡ (3, suc s.pos) =
      small_integer payload s.pos 7 131 rest here refl in
    ends_at payload s _ (suc s.pos) _ (omega (arith, at_pre, length-append pre (131 ∷ [])))
      (record {
        table = s.ctx;
        reads =
            rw (decode_field, get_or-drop payload s.pos 0 131 rest here, integer)
              (ap (at_index s) integer);
      })

-- The pseudo headers that are known.
unfoldable pub is_known : List ℕ → Bool
unfolding str_case_eq
is_known name =
    str_case_eq name (codes ":method")
    || str_case_eq name (codes ":scheme")
    || str_case_eq name (codes ":authority")
    || str_case_eq name (codes ":path")

same-IsMeant :
    (h : RequestHeader) (name : List ℕ)
    → str_case_eq h.name name ≡ true
    → IsMeant h (record { name = name; value = h.value })
same-IsMeant h name e = record { name = e; value = inl refl }

raw_bytes : RequestHeader → List ℕ
raw_bytes h = 0 ∷ (hpack_encode_integer (length h.name) 7 0 ++ (h.name ++ huffman_bytes h.value))

raw-IsReadable :
    (h : RequestHeader) → IsSendable h → length h.name < 2 ^ 35 → IsReadable h (raw_bytes h)
unfolding raw_bytes
raw-IsReadable h sendable few = record {
  decoded = record { name = h.name; value = h.value };
  meant = same-IsMeant h h.name (str_case_eq_refl h.name);
  filled = omega arith;
  reads = λ pre rest payload s same at_pre.
      raw_read pre rest h.name h.value payload s sendable.name.no_zero few sendable.value same
        at_pre;
}

value_written :
    (value : List ℕ) → IsText value → write_huffman_value value ≡ some (huffman_bytes value)
value_written value t =
    write_huffman_value-written value (omega (arith, t.compact, length-encode value))

-- A name of 7 bytes has its length in one byte.
raw_literal_lem :
    (h : RequestHeader)
    → IsText h.value
    → length h.name ≡ 7
    → (raw_literal h ≡ Written.written (raw_bytes h))
      × (length (raw_bytes h) ≤ length h.name + length h.value + 8)
unfolding raw_literal raw_bytes hpack_encode_integer
raw_literal_lem h t seven =
    let valued = huffman_bytes h.value in
    (
      rw (value_written h.value t) (
          ap (λ bytes. Written.written (0 ∷ bytes))
            (append_assoc (hpack_encode_integer (length h.name) 7 0) h.name valued)),
      rw (lt→ltb (length h.name) (2 ^ 7 - 1) (omega (arith, seven)))
          (omega (arith, length-append h.name valued, huffman_bytes_size h.value t)),
    )

static-IsReadable :
    (h : RequestHeader) (index : ℕ)
    → IsSendable h
    → 0 < index
    → index ≤ 61
    → str_case_eq h.name (static_name index) ≡ true
    → IsReadable h ((64 + index) ∷ huffman_bytes h.value)
static-IsReadable h index sendable low high e = record {
  decoded = record { name = static_name index; value = h.value };
  meant = same-IsMeant h (static_name index) e;
  filled = omega arith;
  reads = λ pre rest payload s same at_pre.
      static_read pre rest h.value index payload s sendable.value low high same at_pre;
}

-- A header that is written, in the place that is reckoned for it, and read back.
pub record IsWritable (h : RequestHeader) (result : Written) : Type 0 where
  pub bytes : List ℕ
  pub written : result ≡ Written.written bytes
  pub size : length bytes ≤ length h.name + length h.value + 8
  pub readable : IsReadable h bytes

method-IsWritable :
    (h : RequestHeader)
    → IsSendable h
    → h.is_pseudo ≡ true
    → str_case_eq h.name (codes ":method") ≡ true
    → IsWritable h (hpack_pseudo_headers h)
unfolding hpack_pseudo_headers
method-IsWritable h sendable pseudo e =
    let seven : length h.name ≡ 7 = length-str_case_eq h.name (codes ":method") e in
    let raw = raw_literal_lem h sendable.value seven in
    elim (Bool-cases (str_case_eq h.value (codes "GET"))) [
      | inl get ↦ record {
        bytes = 130 ∷ [];
        written = rw (hpack_pseudo_headers, e, get) refl;
        size = omega arith;
        readable = record {
          decoded = record { name = codes ":method"; value = codes "GET" };
          meant = record { name = e; value = inr (pseudo, get) };
          filled = omega arith;
          reads = λ pre rest payload s same at_pre. get_read pre rest payload s same at_pre;
        };
      }
      | inr other ↦ elim (Bool-cases (str_case_eq h.value (codes "POST"))) [
        | inl post ↦ record {
          bytes = 131 ∷ [];
          written = rw (hpack_pseudo_headers, e, other, post) refl;
          size = omega arith;
          readable = record {
            decoded = record { name = codes ":method"; value = codes "POST" };
            meant = record { name = e; value = inr (pseudo, post) };
            filled = omega arith;
            reads = λ pre rest payload s same at_pre. post_read pre rest payload s same at_pre;
          };
        }
        | inr none_of ↦ record {
          bytes = raw_bytes h;
          written = rw (hpack_pseudo_headers, e, other, none_of) raw.0;
          size = raw.1;
          readable = raw-IsReadable h sendable (omega (arith, seven));
        }
      ]
    ]

-- Names of two lengths differ.
differ :
    (name a b : List ℕ)
    → str_case_eq name a ≡ true
    → length a ≢ length b
    → str_case_eq name b ≡ false
differ name a b e apart = elim (Bool-cases (str_case_eq name b)) [
  | inl f ↦ absurd (apart (sym (length-str_case_eq name a e) ∙ length-str_case_eq name b f))
  | inr f ↦ f
]

scheme-IsWritable :
    (h : RequestHeader)
    → IsSendable h
    → str_case_eq h.name (codes ":method") ≡ false
    → str_case_eq h.name (codes ":scheme") ≡ true
    → IsWritable h (hpack_pseudo_headers h)
unfolding hpack_pseudo_headers
scheme-IsWritable h sendable other e =
    let https : str_case_eq h.name (codes "https") ≡ false =
      differ h.name (codes ":scheme") (codes "https") e (omega arith) in
    let http : str_case_eq h.name (codes "http") ≡ false =
      differ h.name (codes ":scheme") (codes "http") e (omega arith) in
    let seven : length h.name ≡ 7 = length-str_case_eq h.name (codes ":scheme") e in
    let raw = raw_literal_lem h sendable.value seven in
    record {
      bytes = raw_bytes h;
      written = rw (hpack_pseudo_headers, other, e, https, http) raw.0;
      size = raw.1;
      readable = raw-IsReadable h sendable (omega (arith, seven));
    }

pub pseudo-IsWritable :
    (h : RequestHeader)
    → IsSendable h
    → h.is_pseudo ≡ true
    → is_known h.name ≡ true
    → IsWritable h (hpack_pseudo_headers h)
unfolding hpack_pseudo_headers is_known response_header_static_table
pseudo-IsWritable h sendable pseudo known =
    elim (Bool-cases (str_case_eq h.name (codes ":method"))) [
      | inl method ↦ method-IsWritable h sendable pseudo method
      | inr m ↦ elim (Bool-cases (str_case_eq h.name (codes ":scheme"))) [
        | inl scheme ↦ scheme-IsWritable h sendable m scheme
        | inr s ↦ elim (Bool-cases (str_case_eq h.name (codes ":authority"))) [
          | inl authority ↦ record {
            bytes = 65 ∷ huffman_bytes h.value;
            written =
                rw (hpack_pseudo_headers, m, s, authority, value_written h.value sendable.value)
                  refl;
            size = omega (arith, huffman_bytes_size h.value sendable.value);
            readable = static-IsReadable h 1 sendable (omega arith) (omega arith) authority;
          }
          | inr a ↦
              let path : str_case_eq h.name (codes ":path") ≡ true = ground arith in
              record {
                bytes = 68 ∷ huffman_bytes h.value;
                written =
                    rw (hpack_pseudo_headers, m, s, a, path, value_written h.value sendable.value)
                      refl;
                size = omega (arith, huffman_bytes_size h.value sendable.value);
                readable = static-IsReadable h 4 sendable (omega arith) (omega arith) path;
              }
        ]
      ]
    ]
