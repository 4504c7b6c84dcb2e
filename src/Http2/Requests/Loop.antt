-- ===== src/Http2/Requests/Loop.antt =====
-- The loop of the decoder of header blocks, over the bytes of one header after the other.
use http_request_client.Prelude.{
  ℕ, zero, suc, ◌+◌, ◌≤◌, ◌<◌, ◌≡◌, refl, sym, ap, ◌∙◌, List, [], ◌∷◌, ◌++◌, append-nil,
  append_assoc, some, true, false, ltb, length, arith, if_true, if_false, length-append, lt→ltb,
  le→ltb,
}
use http_request_client.Hpack.Block.{
  Decoding, ResponseHeader, Round, decode_field, decode_fields, if_next, round_state, store_header,
}
use http_request_client.Request.Order.{RequestHeader}
use http_request_client.Http2.Requests.{is_connection}
use http_request_client.Http2.Requests.Pseudo.{IsMeant, IsReadable}

-- The headers that are read, for those that are sent; "connection" is not sent.
pub data Meant : List RequestHeader → List ResponseHeader → Type 0 where
  no_more : Meant [] []
  dropped :
      {h : RequestHeader} {hs : List RequestHeader} {ds : List ResponseHeader}
      → is_connection h ≡ true
      → Meant hs ds
      → Meant (h ∷ hs) ds
  kept :
      {h : RequestHeader} {d : ResponseHeader} {hs : List RequestHeader} {ds : List ResponseHeader}
      → is_connection h ≡ false
      → IsMeant h d
      → Meant hs ds
      → Meant (h ∷ hs) (d ∷ ds)

-- The rest of a block, read by the loop behind the headers that it has got.
pub record IsBlockRead (hs : List RequestHeader) (bytes : List ℕ) : Type 0 where
  pub decoded : List ResponseHeader
  pub meant : Meant hs decoded
  pub few : length decoded ≤ length bytes
  pub no_more_than : length decoded ≤ length hs
  pub reads :
      (pre payload : List ℕ) (got : List ResponseHeader) (fuel : ℕ) (s : Decoding)
      → payload ≡ pre ++ bytes
      → s.pos ≡ length pre
      → s.headers ≡ some got
      → length got + length decoded ≤ 64
      → length decoded ≤ fuel
      → ((decode_fields fuel payload s).headers ≡ some (got ++ decoded))
        × ((decode_fields fuel payload s).error ≡ s.error)

pub at_end :
    (fuel : ℕ) (payload : List ℕ) (s : Decoding)
    → s.pos ≡ length payload
    → decode_fields fuel payload s ≡ s
unfolding decode_fields
at_end zero payload s e = refl
at_end (suc fuel) payload s e =
    if_false (ltb s.pos (length payload)) _ _ (le→ltb s.pos (length payload) (omega arith))

stored :
    (s : Decoding) (d : ResponseHeader) (got : List ResponseHeader)
    → s.headers ≡ some got
    → length got < 64
    → store_header s d ≡ Round.next (record s { headers = some (got ++ d ∷ []) })
unfolding store_header
stored s d got e room =
    rw (store_header, e) (if_true (ltb (length got) 64) _ _ (lt→ltb (length got) 64 room))

one_round :
    (fuel : ℕ) (payload : List ℕ) (s t : Decoding)
    → s.pos < length payload
    → decode_field payload s ≡ Round.next t
    → decode_fields (suc fuel) payload s ≡ decode_fields fuel payload t
unfolding decode_fields
one_round fuel payload s t inside e =
    if_true (ltb s.pos (length payload)) _ _ (lt→ltb s.pos (length payload) inside)
    ∙ ap (λ r. if_next r (decode_fields fuel payload (round_state r))) e

pub nothing-IsBlockRead : IsBlockRead [] []
nothing-IsBlockRead = record {
  decoded = [];
  meant = no_more;
  few = omega arith;
  no_more_than = omega arith;
  reads = λ pre payload got fuel s same at_pre has room enough.
      let e = at_end fuel payload s (at_pre ∙ ap length (sym (append-nil pre) ∙ sym same)) in
      (
        ap (λ (t : Decoding). t.headers) e ∙ has ∙ ap some (sym (append-nil got)),
        ap (λ (t : Decoding). t.error) e,
      );
}

block_step :
    (h : RequestHeader) (hs : List RequestHeader) (bytes more : List ℕ) (one : IsReadable h bytes)
    (rest : IsBlockRead hs more) (pre payload : List ℕ) (got : List ResponseHeader) (fuel : ℕ)
    (s : Decoding)
    → payload ≡ pre ++ (bytes ++ more)
    → s.pos ≡ length pre
    → s.headers ≡ some got
    → length got + suc (length rest.decoded) ≤ 64
    → suc (length rest.decoded) ≤ fuel
    → ((decode_fields fuel payload s).headers ≡ some (got ++ one.decoded ∷ rest.decoded))
      × ((decode_fields fuel payload s).error ≡ s.error)
block_step h hs bytes more one rest pre payload got zero s same at_pre has room enough =
    absurd (omega arith)
block_step h hs bytes more one rest pre payload got (suc fuel) s same at_pre has room enough =
    let field = one.reads pre more payload s same at_pre in
    let end = length (pre ++ bytes) in
    let after : Decoding = record s {
      pos = end;
      ctx = field.table;
      headers = some (got ++ one.decoded ∷ []);
    } in
    let next =
      field.reads
      ∙ stored (record s { pos = end; ctx = field.table }) one.decoded got has (omega arith) in
    let inside : s.pos < length payload = omega (
      arith,
      ap length same,
      length-append pre (bytes ++ more),
      length-append bytes more,
      one.filled,
    ) in
    let more_read =
      rest.reads (pre ++ bytes) payload (got ++ one.decoded ∷ []) fuel after
        (same ∙ sym (append_assoc pre bytes more)) refl refl
        (omega (arith, length-append got (one.decoded ∷ []))) (omega arith) in
    rw (one_round fuel payload s after inside next)
      (more_read.0 ∙ ap some (append_assoc got (one.decoded ∷ []) rest.decoded), more_read.1)

pub header-IsBlockRead :
    (h : RequestHeader) (hs : List RequestHeader) (bytes more : List ℕ)
    → is_connection h ≡ false
    → IsReadable h bytes
    → IsBlockRead hs more
    → IsBlockRead (h ∷ hs) (bytes ++ more)
header-IsBlockRead h hs bytes more other one rest = record {
  decoded = one.decoded ∷ rest.decoded;
  meant = kept other one.meant rest.meant;
  few = omega (arith, one.filled, rest.few, length-append bytes more);
  no_more_than = omega (arith, rest.no_more_than);
  reads = block_step h hs bytes more one rest;
}

pub connection-IsBlockRead :
    (h : RequestHeader) (hs : List RequestHeader) (bytes : List ℕ)
    → is_connection h ≡ true
    → IsBlockRead hs bytes
    → IsBlockRead (h ∷ hs) bytes
connection-IsBlockRead h hs bytes skipped rest = record {
  decoded = rest.decoded;
  meant = dropped skipped rest.meant;
  few = rest.few;
  no_more_than = omega (arith, rest.no_more_than);
  reads = rest.reads;
}
