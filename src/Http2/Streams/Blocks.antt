-- ===== src/Http2/Streams/Blocks.antt =====
-- Header blocks that are padded, carry a priority, or are split over several frames.
use http_request_client.Prelude.{
  ℕ, suc, ◌-◌, ◌≡◌, refl, sym, ap, ◌∙◌, List, [], ◌∷◌, ◌++◌, append-nil, append_assoc, some, Bool,
  true, false, not, ltb, if◌then◌else◌, length, take, arith, length-append, take-append, le→ltb,
  if_false,
}
use http_request_client.Errors.{is_error}
use http_request_client.Hpack.Table.{HpackContext}
use http_request_client.Http2.Frames.Reading.{concat}
use http_request_client.Http2.Streams.{
  HeaderState, has_flag, strip_fragment, header_fragment, decode_block, handle_headers_frame,
  handle_continuation_frame,
}

take_front :
    (fragment padding : List ℕ)
    → take (length (fragment ++ padding) - length padding) (fragment ++ padding) ≡ fragment
take_front fragment padding =
    let e : length (fragment ++ padding) - length padding ≡ length fragment =
      omega (arith, length-append fragment padding) in
    ap (λ (n : ℕ). take n (fragment ++ padding)) e ∙ take-append fragment padding

-- The payload of a HEADERS frame (RFC 9113 6.2): pad length, priority, fragment and padding.
abbrev pub headers_payload : Bool → Bool → List ℕ → List ℕ → List ℕ → List ℕ
headers_payload padded priority prio fragment padding =
    (if padded then length padding ∷ [] else [])
    ++ ((if priority then prio else []) ++ (fragment ++ (if padded then padding else [])))

-- Room for the padding, and what it leaves.
fits : (fragment padding : List ℕ) → ltb (length (fragment ++ padding)) (length padding) ≡ false
fits fragment padding =
    le→ltb (length (fragment ++ padding)) (length padding)
      (omega (arith, length-append fragment padding))

strip_fragment_lem :
    (padded priority : Bool) (p0 p1 p2 p3 p4 : ℕ) (fragment padding : List ℕ)
    → strip_fragment padded priority
        (headers_payload padded priority (p0 ∷ p1 ∷ p2 ∷ p3 ∷ p4 ∷ []) fragment padding)
      ≡ some fragment
unfolding strip_fragment
strip_fragment_lem true true p0 p1 p2 p3 p4 fragment padding =
    let n = length (fragment ++ padding) in
    if_false _ _ _ (le→ltb (suc (suc (suc (suc (suc (suc n)))))) 1 (omega arith))
    ∙ if_false _ _ _ (le→ltb (suc (suc (suc (suc (suc n))))) 5 (omega arith))
    ∙ if_false _ _ _ (fits fragment padding)
    ∙ ap some (take_front fragment padding)
strip_fragment_lem true false p0 p1 p2 p3 p4 fragment padding =
    if_false _ _ _ (le→ltb (suc (length (fragment ++ padding))) 1 (omega arith))
    ∙ if_false _ _ _ (fits fragment padding)
    ∙ ap some (take_front fragment padding)
strip_fragment_lem false true p0 p1 p2 p3 p4 fragment padding =
    let n = length (fragment ++ []) in
    if_false _ _ _ (le→ltb (suc (suc (suc (suc (suc n))))) 5 (omega arith))
    ∙ if_false _ _ _ (fits fragment [])
    ∙ ap some (take_front fragment [])
strip_fragment_lem false false p0 p1 p2 p3 p4 fragment padding =
    rw (fits fragment []) (ap some (take_front fragment []))

-- The fragment is found in the payload of a HEADERS frame with every choice of the PADDED and
-- PRIORITY flags, for five bytes of priority.
pub header_fragment_lem :
    (flags p0 p1 p2 p3 p4 : ℕ) (fragment padding : List ℕ)
    → header_fragment flags (
        headers_payload
          (has_flag flags 8)
          (has_flag flags 32)
          (p0 ∷ p1 ∷ p2 ∷ p3 ∷ p4 ∷ [])
          fragment
          padding)
      ≡ some fragment
unfolding header_fragment
header_fragment_lem flags p0 p1 p2 p3 p4 fragment padding =
    strip_fragment_lem (has_flag flags 8) (has_flag flags 32) p0 p1 p2 p3 p4 fragment padding

-- CONTINUATION frames one after another, the last with END_HEADERS.
abbrev pub continue_block :
    HeaderState → List (List ℕ) → List ℕ → HpackContext → HeaderState × HpackContext
continue_block s [] last ctx = handle_continuation_frame s last 4 ctx
continue_block s (fragment ∷ fragments) last ctx =
    let (s', ctx') = handle_continuation_frame s fragment 0 ctx in
    continue_block s' fragments last ctx'

continue_block_lem :
    (fragments : List (List ℕ)) (s : HeaderState) (last : List ℕ) (ctx : HpackContext)
    → s.awaiting_continuation ≡ true
    → is_error s.error ≡ false
    → continue_block s fragments last ctx
      ≡ decode_block
          (record s { header_block = []; awaiting_continuation = false })
          (s.header_block ++ (concat fragments ++ last))
          ctx
unfolding handle_continuation_frame
continue_block_lem [] s last ctx w e =
    if_false (not s.awaiting_continuation) _ _ (ap not w) ∙ if_false (is_error s.error) _ _ e
continue_block_lem (fragment ∷ fragments) s last ctx w e =
    let t : HeaderState = record s { header_block = s.header_block ++ fragment } in
    let step : handle_continuation_frame s fragment 0 ctx ≡ (t, ctx) =
      if_false (not s.awaiting_continuation) _ _ (ap not w) in
    ap (λ (r : HeaderState × HpackContext). continue_block r.0 fragments last r.1) step
    ∙ continue_block_lem fragments t last ctx w e
    ∙ ap (λ b. decode_block (record s { header_block = []; awaiting_continuation = false }) b ctx)
        (append_assoc s.header_block fragment (concat fragments ++ last)
          ∙ ap (λ b. s.header_block ++ b) (sym (append_assoc fragment (concat fragments) last)))

plain_fragment : (first : List ℕ) → header_fragment 0 first ≡ some first
unfolding header_fragment strip_fragment
plain_fragment first =
    let whole : take (length first - 0) first ≡ first =
      ap (λ b. take (length b - 0) b) (sym (append-nil first)) ∙ take_front first [] in
    if_false _ _ _ (le→ltb (length first) 0 (omega arith)) ∙ ap some whole

open_block :
    (s : HeaderState) (first : List ℕ) (ctx : HpackContext)
    → handle_headers_frame s first 0 ctx
      ≡ (record s { header_block = first; awaiting_continuation = true }, ctx)
unfolding handle_headers_frame
open_block s first ctx = rw (handle_headers_frame, plain_fragment first) refl

-- A header block that a HEADERS frame without END_HEADERS opens and CONTINUATION frames carry on is
-- decoded exactly as the concatenation of its fragments would be in one piece, for every cut of the
-- block, on a stream without an error, where the frames carry no padding and no priority.
pub continued_block_lem :
    (fragments : List (List ℕ)) (s : HeaderState) (first last : List ℕ) (ctx : HpackContext)
    → is_error s.error ≡ false
    → continue_block
        (handle_headers_frame s first 0 ctx).0
        fragments
        last
        (handle_headers_frame s first 0 ctx).1
      ≡ decode_block
          (record s { header_block = []; awaiting_continuation = false })
          (first ++ (concat fragments ++ last))
          ctx
continued_block_lem fragments s first last ctx e =
    let opened : HeaderState = record s { header_block = first; awaiting_continuation = true } in
    ap (λ (r : HeaderState × HpackContext). continue_block r.0 fragments last r.1)
      (open_block s first ctx)
    ∙ continue_block_lem fragments opened last ctx refl e
