-- ===== src/Tests/Response.antt =====
-- The response funnel on concrete bodies.
use http_request_client.Prelude.{
  ℕ, ◌≡◌, refl, List, [], ◌∷◌, ◌++◌, ◌==◌, none, some, true, false, length,
}
use http_request_client.Errors.{err_none}
use http_request_client.Response.Stream.{
  Decompressors, Contract, ResponseSink, Stream, Funnel, Op, perform_all, build_response_sink,
}
use http_request_client.Response.Callbacks.{
  IsSoundFunnel, perform_all-IsSoundFunnel, build_response_sink-IsSound,
}
use http_request_client.Response.Collecting.{IsCollecting, appends, decoded, perform_all-appends}

-- A decoder that repeats every chunk.
abbrev pub doubling : Decompressors
doubling = record {
  State = Unit {0};
  build = λ encoding. some tt;
  feed = λ state chunk. (chunk ∷ chunk ∷ [], (false, state));
}

-- A consumer that stops at a chunk of three bytes.
abbrev pub contract : Contract
contract = record {
  has_headers = true;
  has_data = true;
  has_complete = true;
  stops = λ log chunk. length chunk == 3;
}

abbrev pub stream : Stream doubling
stream = record { headers = []; combined_payload = []; payload_decoded = false; error = err_none }

abbrev streaming : Funnel doubling
streaming = record {
  stream = stream;
  sink = some (build_response_sink doubling 15 (some contract));
}

abbrev ops : List Op
ops =
    Op.deliver_headers
    ∷ Op.append (1 ∷ 2 ∷ [])
    ∷ Op.append (3 ∷ 4 ∷ 5 ∷ [])
    ∷ Op.append (6 ∷ [])
    ∷ Op.finish
    ∷ Op.take_cancellation
    ∷ Op.finish
    ∷ []

perform_all-IsSoundFunnel_example : IsSoundFunnel doubling (perform_all doubling streaming ops)
perform_all-IsSoundFunnel_example =
    perform_all-IsSoundFunnel doubling ops streaming
      (record { holds = build_response_sink-IsSound doubling 15 (some contract) })

abbrev collector : ResponseSink doubling
collector = record (build_response_sink doubling 15 none) { decompressor = some tt }

collector-IsCollecting : IsCollecting doubling (some tt) collector
unfolding build_response_sink
collector-IsCollecting = record { collecting = refl; running = refl; decoder = refl }

abbrev chunks : List (List ℕ)
chunks = (1 ∷ 2 ∷ []) ∷ [] ∷ (3 ∷ []) ∷ []

perform_all-appends_example :
    (perform_all doubling
      (record { stream = stream; sink = some collector })
      (appends doubling chunks)).stream.combined_payload
    ≡ [] ++ decoded doubling (some tt) chunks
perform_all-appends_example =
    perform_all-appends doubling chunks (some tt) stream collector collector-IsCollecting
