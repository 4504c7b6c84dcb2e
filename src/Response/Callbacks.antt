-- ===== src/Response/Callbacks.antt =====
-- The order and number of the callbacks that a response makes.
use http_request_client.Prelude.{
  ℕ, ◌+◌, ◌≡◌, refl, sym, ap, ap₂, ◌∙◌, inl, inr, List, [], ◌∷◌, Option, none, some, Bool, true,
  false, not, ◌&&◌, ◌||◌, ◌==◌, if◌then◌else◌, length, arith, Bool-cases, Option-cases,
}
use http_request_client.Errors.{Error, is_error}
use http_request_client.Hpack.Block.{ResponseHeader}
use http_request_client.Response.Stream.{
  Decompressors, Event, Contract, ResponseSink, Stream, Funnel, BodyDelivery, Feed, Op,
  detect_content_encoding, is_requested, prepare_stream_decoder, note, deliver_response_headers,
  consume_response_body, consume_pieces, feed_stream_decompressor, deliver_stream_payload,
  append_stream_payload, complete_response_sink, take_response_cancellation, build_response_sink,
  perform, perform_all, is_failed, abort_response_sink,
}

-- The calls in a log of each callback, the bytes that `onData` accepted, and its requests to stop.
abbrev pub header_calls : List Event → ℕ
header_calls [] = 0
header_calls (Event.headers hs ∷ log) = 1 + header_calls log
header_calls (Event.body bytes stop ∷ log) = header_calls log
header_calls (Event.complete e ∷ log) = header_calls log

abbrev pub complete_calls : List Event → ℕ
complete_calls [] = 0
complete_calls (Event.headers hs ∷ log) = complete_calls log
complete_calls (Event.body bytes stop ∷ log) = complete_calls log
complete_calls (Event.complete e ∷ log) = 1 + complete_calls log

abbrev pub accepted : List Event → ℕ
accepted [] = 0
accepted (Event.headers hs ∷ log) = accepted log
accepted (Event.body bytes stop ∷ log) = (if stop then 0 else length bytes) + accepted log
accepted (Event.complete e ∷ log) = accepted log

abbrev pub stops : List Event → ℕ
stops [] = 0
stops (Event.headers hs ∷ log) = stops log
stops (Event.body bytes stop ∷ log) = (if stop then 1 else 0) + stops log
stops (Event.complete e ∷ log) = stops log

-- No call of `onData` after one that asked to stop.
abbrev pub Quiet : List Event → Type 0
Quiet [] = Unit
Quiet (Event.headers hs ∷ log) = Quiet log
Quiet (Event.body bytes stop ∷ log) = (stops log ≡ 0) × Quiet log
Quiet (Event.complete e ∷ log) = Quiet log

abbrev as_number : Bool → ℕ
as_number b = if b then 1 else 0

module _ (d : Decompressors) where
  -- The flags and the counter of a sink agree with the calls made; `extra` bytes are not yet counted.
  pub record IsSound (extra : ℕ) (sink : ResponseSink d) : Type 0 where
    pub headers_once :
        header_calls sink.log ≡ as_number (sink.headers_delivered && sink.contract.has_headers)
    pub complete_once :
        complete_calls sink.log ≡ as_number (sink.completed && sink.contract.has_complete)
    pub counted : sink.collecting ≡ false → sink.delivered + extra ≡ accepted sink.log
    pub stop_once : stops sink.log ≡ as_number sink.aborted
    pub quiet : Quiet sink.log

  -- The state after some pieces, with the consumer's answer.
  record IsAnswered (r : Bool × BodyDelivery d) : Type 0 where
    sound : IsSound r.1.delivered r.1.sink
    answer : r.1.sink.aborted ≡ r.0

  pick-IsAnswered :
      {x y : Bool × BodyDelivery d} (b : Bool)
      → (b ≡ true → IsAnswered x)
      → (b ≡ false → IsAnswered y)
      → IsAnswered (if b then x else y)
  pick-IsAnswered true p q = p refl
  pick-IsAnswered false p q = q refl

  consume_body-IsAnswered :
      (b : BodyDelivery d) (bytes : List ℕ)
      → IsSound b.delivered b.sink
      → b.sink.aborted ≡ false
      → IsAnswered (consume_response_body d b bytes)
  unfolding consume_response_body abort_response_sink
  consume_body-IsAnswered b bytes s going =
      let stop = b.sink.contract.stops b.sink.log bytes in
      let none_yet : stops b.sink.log ≡ 0 = s.stop_once ∙ ap as_number going in
      let noted : ResponseSink d = record b.sink { log = Event.body bytes stop ∷ b.sink.log } in
      let over = abort_response_sink d b.stream noted in
      let after_stop : BodyDelivery d = record b { stream = over.0; sink = over.1 } in
      let after_more : BodyDelivery d = record b {
        sink = noted;
        delivered = b.delivered + length bytes;
      } in
      pick-IsAnswered b.sink.collecting
        (λ collects. record {
          sound = record {
            headers_once = s.headers_once;
            complete_once = s.complete_once;
            counted = λ e. absurd cc;
            stop_once = s.stop_once;
            quiet = s.quiet;
          };
          answer = going;
        })
        (λ delivers.
          pick-IsAnswered (not b.sink.contract.has_data)
            (λ deaf. record { sound = s; answer = going })
            (λ hears.
              pick-IsAnswered {x = (true, after_stop)} {y = (false, after_more)} stop
                (λ stopping. record {
                  sound = record {
                    headers_once = s.headers_once;
                    complete_once = s.complete_once;
                    counted = λ e. let c = s.counted e in ground arith;
                    stop_once = ground arith;
                    quiet = (none_yet, s.quiet);
                  };
                  answer = refl;
                })
                (λ more. record {
                  sound = record {
                    headers_once = s.headers_once;
                    complete_once = s.complete_once;
                    counted = λ e. let c = s.counted e in ground arith;
                    stop_once = ground arith;
                    quiet = (none_yet, s.quiet);
                  };
                  answer = going;
                })))

  consume_pieces-IsAnswered :
      (pieces : List (List ℕ)) (b : BodyDelivery d)
      → IsSound b.delivered b.sink
      → b.sink.aborted ≡ false
      → IsAnswered (consume_pieces d b pieces)
  unfolding consume_pieces
  consume_pieces-IsAnswered [] b s going = record { sound = s; answer = going }
  consume_pieces-IsAnswered (piece ∷ pieces) b s going =
      let first = consume_body-IsAnswered b piece s going in
      let (stop, after) = consume_response_body d b piece in
      pick-IsAnswered stop
        (λ stopping. record { sound = first.sound; answer = first.answer ∙ stopping })
        (λ more. consume_pieces-IsAnswered pieces after first.sound (first.answer ∙ more))

  -- The state behind the decoder.
  record IsFed (r : Feed d × (BodyDelivery d × Option d.State)) : Type 0 where
    sound : IsSound r.1.0.delivered r.1.0.sink

  feed-IsFed :
      (decompressor : Option d.State) (b : BodyDelivery d) (bytes : List ℕ)
      → IsSound b.delivered b.sink
      → b.sink.aborted ≡ false
      → IsFed (feed_stream_decompressor d decompressor b bytes)
  unfolding feed_stream_decompressor
  feed-IsFed none b bytes s going = record {
    sound = (consume_body-IsAnswered b bytes s going).sound;
  }
  feed-IsFed (some state) b bytes s going = record {
    sound = (consume_pieces-IsAnswered (d.feed state bytes).0 b s going).sound;
  }

  -- The state after a chunk.
  record IsDelivered (r : Bool × (Stream d × ResponseSink d)) : Type 0 where
    sound : IsSound 0 r.1.1

  pick-IsDelivered :
      {x y : Bool × (Stream d × ResponseSink d)} (b : Bool)
      → (b ≡ true → IsDelivered x)
      → (b ≡ false → IsDelivered y)
      → IsDelivered (if b then x else y)
  pick-IsDelivered true p q = p refl
  pick-IsDelivered false p q = q refl

  deliver-IsDelivered :
      (stream : Stream d) (sink : ResponseSink d) (bytes : List ℕ)
      → IsSound 0 sink
      → IsDelivered (deliver_stream_payload d stream sink bytes)
  unfolding deliver_stream_payload
  deliver-IsDelivered stream sink bytes s =
      let start : BodyDelivery d = record { stream = stream; sink = sink; delivered = 0 } in
      let result = feed_stream_decompressor d sink.decompressor start bytes in
      let after = result.1.0 in
      pick-IsDelivered sink.aborted (λ over. record { sound = s })
        (λ going.
          let f = (feed-IsFed sink.decompressor start bytes s going).sound in
          let total : (after.sink.collecting ≡ false)
              → after.sink.delivered + after.delivered + 0 ≡ accepted after.sink.log =
            λ e. omega (arith, f.counted e) in
          pick-IsDelivered (is_failed d result.0 && not (is_error after.sink.error))
            (λ bad. record {
              sound = record {
                headers_once = f.headers_once;
                complete_once = f.complete_once;
                counted = total;
                stop_once = f.stop_once;
                quiet = f.quiet;
              };
            })
            (λ good. record {
              sound = record {
                headers_once = f.headers_once;
                complete_once = f.complete_once;
                counted = total;
                stop_once = f.stop_once;
                quiet = f.quiet;
              };
            }))

  abbrev Holds : Option (ResponseSink d) → Type 0
  Holds none = Unit
  Holds (some sink) = IsSound 0 sink

  -- The sink of a funnel, if it has one, is sound.
  pub record IsSoundFunnel (f : Funnel d) : Type 0 where
    pub holds : Holds f.sink

  pick-IsSoundFunnel :
      {x y : Funnel d} (b : Bool)
      → (b ≡ true → IsSoundFunnel x)
      → (b ≡ false → IsSoundFunnel y)
      → IsSoundFunnel (if b then x else y)
  pick-IsSoundFunnel true p q = p refl
  pick-IsSoundFunnel false p q = q refl

  pick-IsSound :
      {x y : ResponseSink d} (b : Bool)
      → (b ≡ true → IsSound 0 x)
      → (b ≡ false → IsSound 0 y)
      → IsSound 0 (if b then x else y)
  pick-IsSound true p q = p refl
  pick-IsSound false p q = q refl

  append-IsSoundFunnel :
      (stream : Stream d) (sink : Option (ResponseSink d)) (bytes : List ℕ)
      → Holds sink
      → IsSoundFunnel (append_stream_payload d (record { stream = stream; sink = sink }) bytes).1
  unfolding append_stream_payload
  append-IsSoundFunnel stream none bytes s = elim (Bool-cases (length bytes == 0)) [
    | inl e ↦ rw e (record { holds = tt })
    | inr e ↦ rw e (record { holds = tt })
  ]
  append-IsSoundFunnel stream (some sink) bytes s = elim (Bool-cases (length bytes == 0)) [
    | inl e ↦ rw e (record { holds = s })
    | inr e ↦ rw e (record { holds = (deliver-IsDelivered stream sink bytes s).sound })
  ]

  noted_complete-IsSound :
      (e : Error) (sink : ResponseSink d)
      → IsSound 0 sink
      → sink.completed ≡ false
      → IsSound 0 (
          note d sink.contract.has_complete
            (Event.complete e)
            (record sink { completed = true; decompressor = none }))
  noted_complete-IsSound e sink s unfinished =
      let none_yet : complete_calls sink.log ≡ 0 =
        s.complete_once ∙ ap (λ b. as_number (b && sink.contract.has_complete)) unfinished in
      let closed : ResponseSink d = record sink { completed = true; decompressor = none } in
      let told : ResponseSink d = record closed { log = Event.complete e ∷ sink.log } in
      pick-IsSound {x = told} {y = closed} sink.contract.has_complete
        (λ has. record {
          headers_once = s.headers_once;
          complete_once = ap (λ (n : ℕ). 1 + n) none_yet ∙ sym (ap as_number has);
          counted = s.counted;
          stop_once = s.stop_once;
          quiet = s.quiet;
        })
        (λ lacks. record {
          headers_once = s.headers_once;
          complete_once = none_yet ∙ sym (ap as_number lacks);
          counted = s.counted;
          stop_once = s.stop_once;
          quiet = s.quiet;
        })

  complete-IsSoundFunnel :
      (stream : Stream d) (sink : Option (ResponseSink d))
      → Holds sink
      → IsSoundFunnel (complete_response_sink d (record { stream = stream; sink = sink }))
  unfolding complete_response_sink
  complete-IsSoundFunnel stream none s = record { holds = tt }
  complete-IsSoundFunnel stream (some sink) s =
      let error = if is_error sink.error then sink.error else stream.error in
      pick-IsSoundFunnel sink.completed (λ over. record { holds = s })
        (λ unfinished. record { holds = noted_complete-IsSound error sink s unfinished })

  take-IsSoundFunnel :
      (stream : Stream d) (sink : Option (ResponseSink d))
      → Holds sink
      → IsSoundFunnel (take_response_cancellation d (record { stream = stream; sink = sink })).1
  unfolding take_response_cancellation
  take-IsSoundFunnel stream none s = record { holds = tt }
  take-IsSoundFunnel stream (some sink) s =
      elim (Bool-cases (not sink.cancelled || sink.cancellation_taken)) [
        | inl e ↦ rw e (record { holds = s })
        | inr e ↦ rw e (record {
          holds = record {
            headers_once = s.headers_once;
            complete_once = s.complete_once;
            counted = s.counted;
            stop_once = s.stop_once;
            quiet = s.quiet;
          };
        })
      ]

  -- The choice of a decoder touches neither the calls nor what counts them.
  record IsPrepared (before : ResponseSink d) (r : Stream d × ResponseSink d) : Type 0 where
    log : r.1.log ≡ before.log
    flags :
        (r.1.headers_delivered ≡ before.headers_delivered)
        × (r.1.completed ≡ before.completed)
        × (r.1.aborted ≡ before.aborted)
    rest :
        (r.1.contract ≡ before.contract)
        × (r.1.collecting ≡ before.collecting)
        × (r.1.delivered ≡ before.delivered)

  prepare-IsPrepared :
      (stream : Stream d) (sink : ResponseSink d)
      → IsPrepared sink (prepare_stream_decoder d stream sink)
  unfolding prepare_stream_decoder
  prepare-IsPrepared stream sink =
      let encoding = detect_content_encoding stream.headers in
      elim (Bool-cases (not (is_requested sink.decompress_mask encoding))) [
        | inl e ↦
            rw e (record { log = refl; flags = (refl, refl, refl); rest = (refl, refl, refl) })
        | inr e ↦ rw e (elim (Option-cases (d.build encoding)) [
          | inl n ↦
              rw n (record { log = refl; flags = (refl, refl, refl); rest = (refl, refl, refl) })
          | inr (state, n) ↦
              rw n (record { log = refl; flags = (refl, refl, refl); rest = (refl, refl, refl) })
        ])
      ]

  noted_headers-IsSound :
      (hs : List ResponseHeader) (sink prepared : ResponseSink d) (r : Stream d)
      → IsSound 0 sink
      → sink.headers_delivered ≡ false
      → IsPrepared (record sink { headers_delivered = true }) (r, prepared)
      → IsSound 0 (note d sink.contract.has_headers (Event.headers hs) prepared)
  noted_headers-IsSound hs sink prepared r s unsent q =
      let none_yet : header_calls prepared.log ≡ 0 =
        ap header_calls q.log
        ∙ s.headers_once
        ∙ ap (λ b. as_number (b && sink.contract.has_headers)) unsent in
      let flag : as_number (prepared.headers_delivered && prepared.contract.has_headers)
          ≡ as_number sink.contract.has_headers =
        ap₂ (λ b (c : Contract). as_number (b && c.has_headers)) q.flags.0 q.rest.0 in
      let complete : complete_calls prepared.log
          ≡ as_number (prepared.completed && prepared.contract.has_complete) =
        ap complete_calls q.log
        ∙ s.complete_once
        ∙ sym (ap₂ (λ b (c : Contract). as_number (b && c.has_complete)) q.flags.1 q.rest.0) in
      let bytes : prepared.collecting ≡ false → prepared.delivered + 0 ≡ accepted prepared.log =
        λ e.
          ap (λ (n : ℕ). n + 0) q.rest.2 ∙ s.counted (sym q.rest.1 ∙ e) ∙ sym (ap accepted q.log) in
      let stopped : stops prepared.log ≡ as_number prepared.aborted =
        ap stops q.log ∙ s.stop_once ∙ sym (ap as_number q.flags.2) in
      let silent : Quiet prepared.log = rw q.log s.quiet in
      let told : ResponseSink d = record prepared { log = Event.headers hs ∷ prepared.log } in
      pick-IsSound {x = told} {y = prepared} sink.contract.has_headers
        (λ has. record {
          headers_once = ap (λ (n : ℕ). 1 + n) none_yet ∙ sym (flag ∙ ap as_number has);
          complete_once = complete;
          counted = bytes;
          stop_once = stopped;
          quiet = silent;
        })
        (λ lacks. record {
          headers_once = none_yet ∙ sym (flag ∙ ap as_number lacks);
          complete_once = complete;
          counted = bytes;
          stop_once = stopped;
          quiet = silent;
        })

  headers-IsSoundFunnel :
      (stream : Stream d) (sink : Option (ResponseSink d))
      → Holds sink
      → IsSoundFunnel (deliver_response_headers d (record { stream = stream; sink = sink }))
  unfolding deliver_response_headers
  headers-IsSoundFunnel stream none s = record { holds = tt }
  headers-IsSoundFunnel stream (some sink) s =
      let started : ResponseSink d = record sink { headers_delivered = true } in
      let (after, prepared) = prepare_stream_decoder d stream started in
      pick-IsSoundFunnel sink.headers_delivered (λ sent. record { holds = s })
        (λ unsent. record {
          holds =
              noted_headers-IsSound stream.headers sink prepared after s unsent
                (prepare-IsPrepared stream started);
        })

  perform-IsSoundFunnel :
      (op : Op) (f : Funnel d) → IsSoundFunnel f → IsSoundFunnel (perform d f op)
  unfolding perform
  perform-IsSoundFunnel Op.deliver_headers f s = headers-IsSoundFunnel f.stream f.sink s.holds
  perform-IsSoundFunnel (Op.append bytes) f s = append-IsSoundFunnel f.stream f.sink bytes s.holds
  perform-IsSoundFunnel Op.finish f s = complete-IsSoundFunnel f.stream f.sink s.holds
  perform-IsSoundFunnel Op.take_cancellation f s = take-IsSoundFunnel f.stream f.sink s.holds

  -- Whatever the readers do with a stream whose sink is sound, and in whichever order, its sink stays
  -- sound: `onHeaders` and `onComplete` are called at most once, `onData` is not called again after
  -- it asked to stop, and `delivered` is the number of bytes that it accepted.
  pub perform_all-IsSoundFunnel :
      (ops : List Op) (f : Funnel d) → IsSoundFunnel f → IsSoundFunnel (perform_all d f ops)
  unfolding perform_all
  perform_all-IsSoundFunnel [] f s = s
  perform_all-IsSoundFunnel (op ∷ ops) f s =
      perform_all-IsSoundFunnel ops (perform d f op) (perform-IsSoundFunnel op f s)

  -- A new sink is sound.
  pub build_response_sink-IsSound :
      (mask : ℕ) (contract : Option Contract) → IsSound 0 (build_response_sink d mask contract)
  unfolding build_response_sink
  build_response_sink-IsSound mask contract = record {
    headers_once = refl;
    complete_once = refl;
    counted = λ e. refl;
    stop_once = refl;
    quiet = tt;
  }
