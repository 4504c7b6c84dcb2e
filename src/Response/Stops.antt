-- ===== src/Response/Stops.antt =====
-- What an accepted chunk leaves alone: the stream's error, and whether the sink is cancelled.
use http_request_client.Prelude.{
  ℕ, ◌≡◌, refl, sym, ap, ◌∙◌, List, [], ◌∷◌, Option, none, some, Bool, true, false, not, ◌&&◌, ◌==◌,
  if◌then◌else◌, length,
}
use http_request_client.Errors.{is_error}
use http_request_client.Response.Stream.{
  BodyDelivery, Decompressors, Feed, Funnel, ResponseSink, Stream, append_stream_payload,
  buffer_stream_payload, consume_pieces, consume_response_body, deliver_stream_payload,
  feed_stream_decompressor, is_consumed, is_failed,
}

module _ (d : Decompressors) where
  -- An error that is set without cancelling the sink would go unnoticed.
  abbrev pub IsBlamed : Stream d → Option (ResponseSink d) → Type 0
  IsBlamed stream none = is_error stream.error ≡ false
  IsBlamed stream (some sink) =
      (is_error stream.error ≡ true → sink.cancelled ≡ true) × (sink.cancellation_taken ≡ false)

  record IsSame (stream : Stream d) (sink : ResponseSink d) (after : Stream d)
      (sink_after : ResponseSink d) : Type 0 where
    error : after.error ≡ stream.error
    cancelled : sink_after.cancelled ≡ sink.cancelled
    taken : sink_after.cancellation_taken ≡ sink.cancellation_taken

  record LeavesAlone (b : BodyDelivery d) (result : Bool × BodyDelivery d) : Type 0 where
    holds : result.0 ≡ false → IsSame b.stream b.sink result.1.stream result.1.sink

  pick-LeavesAlone :
      {b : BodyDelivery d} {x y : Bool × BodyDelivery d} (test : Bool)
      → LeavesAlone b x
      → LeavesAlone b y
      → LeavesAlone b (if test then x else y)
  pick-LeavesAlone true p q = p
  pick-LeavesAlone false p q = q

  body-LeavesAlone :
      (b : BodyDelivery d) (bytes : List ℕ) → LeavesAlone b (consume_response_body d b bytes)
  unfolding consume_response_body buffer_stream_payload
  body-LeavesAlone b bytes =
      let same : IsSame b.stream b.sink b.stream b.sink = record {
        error = refl;
        cancelled = refl;
        taken = refl;
      } in
      pick-LeavesAlone b.sink.collecting
        (record { holds = λ h. record { error = refl; cancelled = refl; taken = refl } })
        (pick-LeavesAlone (not b.sink.contract.has_data) (record { holds = λ h. same })
          (pick-LeavesAlone (b.sink.contract.stops b.sink.log bytes)
            (record { holds = λ h. absurd cc })
            (record { holds = λ h. record { error = refl; cancelled = refl; taken = refl } })))

  after-LeavesAlone :
      (b : BodyDelivery d) (stop : Bool) (after : BodyDelivery d) (more : Bool × BodyDelivery d)
      → LeavesAlone b (stop, after)
      → LeavesAlone after more
      → LeavesAlone b (if stop then (true, after) else more)
  after-LeavesAlone b true after more p q = record { holds = λ h. absurd cc }
  after-LeavesAlone b false after more p q = record {
    holds = λ h.
        let one = p.holds refl in
        let two = q.holds h in
        record {
          error = two.error ∙ one.error;
          cancelled = two.cancelled ∙ one.cancelled;
          taken = two.taken ∙ one.taken;
        };
  }

  pieces-LeavesAlone :
      (pieces : List (List ℕ)) (b : BodyDelivery d) → LeavesAlone b (consume_pieces d b pieces)
  unfolding consume_pieces
  pieces-LeavesAlone [] b = record {
    holds = λ h. record { error = refl; cancelled = refl; taken = refl };
  }
  pieces-LeavesAlone (piece ∷ pieces) b =
      let first = consume_response_body d b piece in
      after-LeavesAlone b first.0 first.1 _ (body-LeavesAlone b piece)
        (pieces-LeavesAlone pieces first.1)

  record FeedsAlone (b : BodyDelivery d) (result : Feed d × (BodyDelivery d × Option d.State))
      : Type 0 where
    holds : is_consumed d result.0 ≡ true → IsSame b.stream b.sink result.1.0.stream result.1.0.sink

  fed-FeedsAlone :
      (b : BodyDelivery d) (stop failure : Bool) (after : BodyDelivery d) (next : Option d.State)
      → LeavesAlone b (stop, after)
      → FeedsAlone b (
        if stop then Feed.stopped else if failure then Feed.failed else Feed.consumed,
        (after, next),
      )
  fed-FeedsAlone b true failure after next p = record { holds = λ h. absurd cc }
  fed-FeedsAlone b false failure after next p = record { holds = λ h. p.holds refl }

  feed-FeedsAlone :
      (state : Option d.State) (b : BodyDelivery d) (bytes : List ℕ)
      → FeedsAlone b (feed_stream_decompressor d state b bytes)
  unfolding feed_stream_decompressor
  feed-FeedsAlone none b bytes =
      let first = consume_response_body d b bytes in
      fed-FeedsAlone b first.0 false first.1 none (body-LeavesAlone b bytes)
  feed-FeedsAlone (some state) b bytes =
      let fed = d.feed state bytes in
      let all = consume_pieces d b fed.0 in
      fed-FeedsAlone b all.0 fed.1.0 all.1 (some fed.1.1) (pieces-LeavesAlone fed.0 b)

  -- An accepted chunk keeps the blame where it was.
  pub record KeepsBlame (f : Funnel d) (result : Bool × Funnel d) : Type 0 where
    pub holds : result.0 ≡ true → IsBlamed f.stream f.sink → IsBlamed result.1.stream result.1.sink

  record DeliversAlone (stream : Stream d) (sink : ResponseSink d)
      (result : Bool × (Stream d × ResponseSink d)) : Type 0 where
    holds : result.0 ≡ true → IsSame stream sink result.1.0 result.1.1

  pick-DeliversAlone :
      {stream : Stream d} {sink : ResponseSink d} {x y : Bool × (Stream d × ResponseSink d)}
      (test : Bool)
      → (test ≡ true → DeliversAlone stream sink x)
      → (test ≡ false → DeliversAlone stream sink y)
      → DeliversAlone stream sink (if test then x else y)
  pick-DeliversAlone true p q = p refl
  pick-DeliversAlone false p q = q refl

  failed_stops :
      (result : Feed d) (rest other : Bool)
      → (is_failed d result && rest) ≡ true
      → (is_consumed d result && other) ≡ false
  failed_stops Feed.consumed rest other h = cc
  failed_stops Feed.stopped rest other h = refl
  failed_stops Feed.failed rest other h = refl

  left_true : (a b : Bool) → (a && b) ≡ true → a ≡ true
  left_true true b h = refl
  left_true false b h = h

  deliver-DeliversAlone :
      (stream : Stream d) (sink : ResponseSink d) (bytes : List ℕ)
      → DeliversAlone stream sink (deliver_stream_payload d stream sink bytes)
  unfolding deliver_stream_payload
  deliver-DeliversAlone stream sink bytes =
      let fed =
        feed_stream_decompressor d sink.decompressor
          (record { stream = stream; sink = sink; delivered = 0 }) bytes in
      let p =
        feed-FeedsAlone sink.decompressor (record { stream = stream; sink = sink; delivered = 0 })
          bytes in
      pick-DeliversAlone sink.aborted (λ h. record { holds = λ t. absurd cc })
        (λ runs.
          pick-DeliversAlone (is_failed d fed.0 && not (is_error fed.1.0.sink.error))
            (λ h. record {
              holds = λ t. absurd (let e = failed_stops fed.0 _ (not fed.1.0.sink.aborted) h in cc);
            })
            (λ h. record {
              holds = λ t.
                  let q = p.holds (left_true _ _ t) in
                  record { error = q.error; cancelled = q.cancelled; taken = q.taken };
            }))

  same-IsBlamed :
      (stream after : Stream d) (sink sink_after : ResponseSink d)
      → IsSame stream sink after sink_after
      → IsBlamed stream (some sink)
      → IsBlamed after (some sink_after)
  same-IsBlamed stream after sink sink_after p blamed =
      (λ h. p.cancelled ∙ blamed.0 (sym (ap is_error p.error) ∙ h), p.taken ∙ blamed.1)

  pick-KeepsBlame :
      {f : Funnel d} {x y : Bool × Funnel d} (test : Bool)
      → KeepsBlame f x
      → KeepsBlame f y
      → KeepsBlame f (if test then x else y)
  pick-KeepsBlame true p q = p
  pick-KeepsBlame false p q = q

  append-KeepsBlame :
      (stream : Stream d) (sink : Option (ResponseSink d)) (bytes : List ℕ)
      → KeepsBlame
          (record { stream = stream; sink = sink })
          (append_stream_payload d (record { stream = stream; sink = sink }) bytes)
  unfolding append_stream_payload buffer_stream_payload
  append-KeepsBlame stream none bytes =
      pick-KeepsBlame (length bytes == 0) (record { holds = λ h blamed. blamed })
        (record { holds = λ h blamed. blamed })
  append-KeepsBlame stream (some sink) bytes =
      let p = deliver-DeliversAlone stream sink bytes in
      pick-KeepsBlame (length bytes == 0) (record { holds = λ h blamed. blamed })
        (record { holds = λ h blamed. same-IsBlamed stream _ sink _ (p.holds h) blamed })

  pub append_stream_payload-KeepsBlame :
      (f : Funnel d) (bytes : List ℕ) → KeepsBlame f (append_stream_payload d f bytes)
  append_stream_payload-KeepsBlame f bytes = append-KeepsBlame f.stream f.sink bytes
