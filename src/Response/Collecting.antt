-- ===== src/Response/Collecting.antt =====
-- The library's own collector: a sink without a caller's contract.
use http_request_client.Prelude.{
  ℕ, ◌+◌, ◌≡◌, refl, sym, ap, ◌∙◌, inl, inr, List, [], ◌∷◌, ◌++◌, append-nil, append_assoc, Option,
  none, some, Bool, true, false, not, ◌&&◌, ◌==◌, if◌then◌else◌, length, arith, Bool-cases, if_true,
  if_false,
}
use mathlib.Core.Path.{subst}
use http_request_client.Errors.{is_error}
use http_request_client.Http2.Frames.Reading.{concat}
use http_request_client.Response.Stream.{
  Decompressors, ResponseSink, Stream, Funnel, BodyDelivery, Feed, Op, consume_response_body,
  consume_pieces, feed_stream_decompressor, deliver_stream_payload, append_stream_payload,
  buffer_stream_payload, perform, perform_all, is_failed,
}

module _ (d : Decompressors) where
  -- The text of the chunks, as the decoder hands it out piece by piece.
  abbrev pub decoded : Option d.State → List (List ℕ) → List ℕ
  decoded state [] = []
  decoded none (chunk ∷ chunks) = chunk ++ decoded none chunks
  decoded (some state) (chunk ∷ chunks) =
      if length chunk == 0
      then decoded (some state) chunks
      else concat (d.feed state chunk).0 ++ decoded (some (d.feed state chunk).1.1) chunks

  -- The chunks of a body as operations.
  abbrev pub appends : List (List ℕ) → List Op
  appends [] = []
  appends (chunk ∷ chunks) = Op.append chunk ∷ appends chunks

  abbrev with_text : BodyDelivery d → List ℕ → BodyDelivery d
  with_text b text = record b {
    stream = record b.stream { combined_payload = b.stream.combined_payload ++ text };
    delivered = b.delivered + length text;
  }

  collect_body :
      (b : BodyDelivery d) (bytes : List ℕ)
      → b.sink.collecting ≡ true
      → consume_response_body d b bytes ≡ (false, with_text b bytes)
  unfolding consume_response_body buffer_stream_payload
  collect_body b bytes e = if_true b.sink.collecting _ _ e

  -- What a delivery keeps and what it collects.
  record IsCollected (b : BodyDelivery d) (text : List ℕ) (r : Bool × BodyDelivery d) : Type 0 where
    goes_on : r.0 ≡ false
    payload : r.1.stream.combined_payload ≡ b.stream.combined_payload ++ text
    sink : r.1.sink ≡ b.sink

  collect_pieces :
      (pieces : List (List ℕ)) (b : BodyDelivery d)
      → b.sink.collecting ≡ true
      → IsCollected b (concat pieces) (consume_pieces d b pieces)
  unfolding consume_pieces
  collect_pieces [] b e = record {
    goes_on = refl;
    payload = sym (append-nil b.stream.combined_payload);
    sink = refl;
  }
  collect_pieces (piece ∷ pieces) b e =
      let rest = collect_pieces pieces (with_text b piece) e in
      rw (collect_body b piece e) (record {
        goes_on = rest.goes_on;
        payload = rest.payload ∙ append_assoc b.stream.combined_payload piece (concat pieces);
        sink = rest.sink;
      })

  -- A collecting sink that has not been stopped, with its decoder.
  pub record IsCollecting (state : Option d.State) (sink : ResponseSink d) : Type 0 where
    pub collecting : sink.collecting ≡ true
    pub running : sink.aborted ≡ false
    pub decoder : sink.decompressor ≡ state

  -- One chunk: its text joins the payload, and the sink goes on collecting.
  record IsAppended (state : Option d.State) (old text : List ℕ)
      (r : Bool × (Stream d × ResponseSink d)) : Type 0 where
    payload : r.1.0.combined_payload ≡ old ++ text
    sink : IsCollecting state r.1.1

  pick-IsAppended :
      {state : Option d.State} {old text : List ℕ} {x y : Bool × (Stream d × ResponseSink d)}
      (b : Bool)
      → IsAppended state old text x
      → IsAppended state old text y
      → IsAppended state old text (if b then x else y)
  pick-IsAppended true p q = p
  pick-IsAppended false p q = q

  chunk_text : Option d.State → List ℕ → List ℕ
  chunk_text none chunk = chunk
  chunk_text (some state) chunk = concat (d.feed state chunk).0

  next_state : Option d.State → List ℕ → Option d.State
  next_state none chunk = none
  next_state (some state) chunk = some (d.feed state chunk).1.1

  record IsFed (b : BodyDelivery d) (text : List ℕ) (state : Option d.State)
      (r : Feed d × (BodyDelivery d × Option d.State)) : Type 0 where
    payload : r.1.0.stream.combined_payload ≡ b.stream.combined_payload ++ text
    sink : r.1.0.sink ≡ b.sink
    decoder : r.1.1 ≡ state

  feed-IsFed :
      (state : Option d.State) (b : BodyDelivery d) (chunk : List ℕ)
      → b.sink.collecting ≡ true
      → IsFed b
          (chunk_text state chunk)
          (next_state state chunk)
          (feed_stream_decompressor d state b chunk)
  unfolding feed_stream_decompressor chunk_text next_state
  feed-IsFed none b chunk e =
      rw (collect_body b chunk e) (record { payload = refl; sink = refl; decoder = refl })
  feed-IsFed (some state) b chunk e =
      let p = collect_pieces (d.feed state chunk).0 b e in
      record { payload = p.payload; sink = p.sink; decoder = refl }

  skip-IsAppended :
      {state : Option d.State} {old text : List ℕ} {y : Bool × (Stream d × ResponseSink d)}
      (b : Bool) (x : Bool × (Stream d × ResponseSink d))
      → b ≡ false
      → IsAppended state old text y
      → IsAppended state old text (if b then x else y)
  skip-IsAppended true x h p = absurd cc
  skip-IsAppended false x h p = p

  deliver-IsAppended :
      (stream : Stream d) (sink : ResponseSink d) (chunk : List ℕ)
      → sink.collecting ≡ true
      → sink.aborted ≡ false
      → IsAppended
          (next_state sink.decompressor chunk)
          stream.combined_payload
          (chunk_text sink.decompressor chunk)
          (deliver_stream_payload d stream sink chunk)
  unfolding deliver_stream_payload
  deliver-IsAppended stream sink chunk collects runs =
      let start : BodyDelivery d = record { stream = stream; sink = sink; delivered = 0 } in
      let result = feed_stream_decompressor d sink.decompressor start chunk in
      let p = feed-IsFed sink.decompressor start chunk collects in
      let still : result.1.0.sink.collecting ≡ true =
        ap (λ (t : ResponseSink d). t.collecting) p.sink ∙ collects in
      let going : result.1.0.sink.aborted ≡ false =
        ap (λ (t : ResponseSink d). t.aborted) p.sink ∙ runs in
      skip-IsAppended sink.aborted _ runs (
        pick-IsAppended (is_failed d result.0 && not (is_error result.1.0.sink.error))
          (record {
            payload = p.payload;
            sink = record { collecting = still; running = going; decoder = p.decoder };
          })
          (record {
            payload = p.payload;
            sink = record { collecting = still; running = going; decoder = p.decoder };
          }))

  -- A funnel whose sink collects.
  abbrev funnel : Stream d → ResponseSink d → Funnel d
  funnel stream sink = record { stream = stream; sink = some sink }

  append_empty :
      (stream : Stream d) (sink : ResponseSink d) (chunk : List ℕ)
      → (length chunk == 0) ≡ true
      → (append_stream_payload d (funnel stream sink) chunk).1 ≡ funnel stream sink
  unfolding append_stream_payload
  append_empty stream sink chunk e =
      ap (λ (r : Bool × Funnel d). r.1) (if_true (length chunk == 0) _ _ e)

  append_chunk :
      (stream : Stream d) (sink : ResponseSink d) (chunk : List ℕ)
      → (length chunk == 0) ≡ false
      → (append_stream_payload d (funnel stream sink) chunk).1
        ≡ funnel
            (deliver_stream_payload d stream sink chunk).1.0
            (deliver_stream_payload d stream sink chunk).1.1
  unfolding append_stream_payload
  append_chunk stream sink chunk e =
      ap (λ (r : Bool × Funnel d). r.1) (if_false (length chunk == 0) _ _ e)

  empty_chunk : (chunk : List ℕ) → (length chunk == 0) ≡ true → chunk ≡ []
  empty_chunk [] h = refl
  empty_chunk (b ∷ chunk) h = absurd (ground arith)

  -- The payload of a collected response is what it was before, followed by the decoded text of the
  -- chunks that arrive, in order, however the body was cut into chunks and whether or not decoding
  -- fails on the way.
  pub perform_all-appends :
      (chunks : List (List ℕ)) (state : Option d.State) (stream : Stream d) (sink : ResponseSink d)
      → IsCollecting state sink
      → (perform_all d
          (record { stream = stream; sink = some sink })
          (appends chunks)).stream.combined_payload
        ≡ stream.combined_payload ++ decoded state chunks
  unfolding perform_all perform append_stream_payload chunk_text next_state
  perform_all-appends [] state stream sink c = sym (append-nil stream.combined_payload)
  perform_all-appends (chunk ∷ chunks) state stream sink c = elim (Bool-cases (length chunk == 0)) [
    | inl e ↦
        ap (λ (f : Funnel d). (perform_all d f (appends chunks)).stream.combined_payload)
          (append_empty stream sink chunk e)
        ∙ perform_all-appends chunks state stream sink c
        ∙ ap (λ t. stream.combined_payload ++ t) (sym (skipped state chunk chunks e))
    | inr e ↦
        let r = deliver_stream_payload d stream sink chunk in
        let p : IsAppended (next_state state chunk) stream.combined_payload (chunk_text state chunk)
            r =
          subst
            (λ st. IsAppended (next_state st chunk) stream.combined_payload (chunk_text st chunk) r)
            c.decoder (deliver-IsAppended stream sink chunk c.collecting c.running) in
        ap (λ (f : Funnel d). (perform_all d f (appends chunks)).stream.combined_payload)
          (append_chunk stream sink chunk e)
        ∙ perform_all-appends chunks (next_state state chunk) r.1.0 r.1.1 p.sink
        ∙ ap (λ t. t ++ decoded (next_state state chunk) chunks) p.payload
        ∙ append_assoc stream.combined_payload (chunk_text state chunk)
            (decoded (next_state state chunk) chunks)
        ∙ ap (λ t. stream.combined_payload ++ t) (sym (split_text state chunk chunks e))
  ]
    where
      skipped :
          (state : Option d.State) (chunk : List ℕ) (chunks : List (List ℕ))
          → (length chunk == 0) ≡ true
          → decoded state (chunk ∷ chunks) ≡ decoded state chunks
      skipped none chunk chunks e = ap (λ t. t ++ decoded none chunks) (empty_chunk chunk e)
      skipped (some state) chunk chunks e = if_true (length chunk == 0) _ _ e

      split_text :
          (state : Option d.State) (chunk : List ℕ) (chunks : List (List ℕ))
          → (length chunk == 0) ≡ false
          → decoded state (chunk ∷ chunks)
            ≡ chunk_text state chunk ++ decoded (next_state state chunk) chunks
      split_text none chunk chunks e = refl
      split_text (some state) chunk chunks e = if_false (length chunk == 0) _ _ e
