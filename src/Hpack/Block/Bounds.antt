-- ===== src/Hpack/Block/Bounds.antt =====
-- decodeHeadersFrame on arbitrary payloads.
use http_request_client.Prelude.{
  ℕ, suc, ◌≤◌, ◌<◌, ◌≡◌, List, [], ◌∷◌, Option, none, some, false, ◌==◌, length, arith,
}
use http_request_client.Errors.{Error}
use http_request_client.Hpack.Table.{HpackContext}
use http_request_client.Hpack.Table.Bounds.{IsBounded}
use http_request_client.Hpack.Block.{Decoding, ResponseHeader, decode_headers_frame, cleared}
use http_request_client.Hpack.Block.Steps.{Runs, headers_count, decode_fields-Runs, Runs-Advances}

-- The state at the head of the loop.
abbrev pub initial : Option (List ResponseHeader) → Error → HpackContext → Decoding
initial headers error ctx = record { pos = 0; ctx = ctx; headers = cleared headers; error = error }

-- The decoder terminates for every payload that is not empty: what it returns is the state behind
-- the loop, as the step relation has it, started with no headers.
pub decode_headers_frame-Runs :
    (headers : Option (List ResponseHeader)) (error : Error) (payload : List ℕ) (ctx : HpackContext)
    → 0 < length payload
    → Runs payload (initial headers error ctx) (decode_headers_frame headers error payload ctx)
unfolding decode_headers_frame
decode_headers_frame-Runs headers error [] ctx h = absurd (omega arith)
decode_headers_frame-Runs headers error (b ∷ payload) ctx h = rw nonzero (
    decode_fields-Runs (suc (length payload)) (b ∷ payload) (initial headers error ctx)
      (omega arith))
  where
    nonzero : (suc (length payload) == 0) ≡ false
    nonzero = ground arith

-- Whatever the payload, a bounded dynamic table stays bounded, at most 64 headers stay at most 64,
-- and the position stays within the payload.
pub decode_headers_frame_bounds :
    (headers : Option (List ResponseHeader)) (error : Error) (payload : List ℕ) (ctx : HpackContext)
    → IsBounded ctx
    → headers_count headers ≤ 64
    → IsBounded (decode_headers_frame headers error payload ctx).ctx
      × (headers_count (decode_headers_frame headers error payload ctx).headers ≤ 64)
      × ((decode_headers_frame headers error payload ctx).pos ≤ length payload)
decode_headers_frame_bounds headers error [] ctx b few =
    unfold decode_headers_frame in (b, few, omega arith)
decode_headers_frame_bounds headers error (c ∷ payload) ctx b few =
    let p =
      Runs-Advances (c ∷ payload) (initial headers error ctx)
        (decode_headers_frame headers error (c ∷ payload) ctx) (omega arith)
        (decode_headers_frame-Runs headers error (c ∷ payload) ctx (omega arith)) in
    (p.table b, p.stored (none_yet headers), p.inside)
  where
    none_yet : (headers : Option (List ResponseHeader)) → headers_count (cleared headers) ≤ 64
    none_yet none = omega arith
    none_yet (some hs) = omega arith
