-- ===== src/Http11/Response/Reuse.antt =====
-- Whether another response can follow on the session.
use http_request_client.Prelude.{
  ℕ, ◌≡◌, refl, ap, ◌∙◌, List, Option, none, some, Bool, true, false, not, ◌||◌, if◌then◌else◌,
  arith, Bool-cases, Option-cases, ◌≢◌, inl, inr,
}
use http_request_client.Errors.{is_error}
use http_request_client.Response.Stream.{
  Decompressors, Funnel, ResponseSink, Stream, deliver_response_headers, prepare_stream_decoder,
  take_response_cancellation, note, Event, detect_content_encoding, is_requested,
}
use http_request_client.Response.Stops.{IsBlamed}
use http_request_client.Http11.Reader.{Reader}
use http_request_client.Http11.Head.{read_response_head}
use http_request_client.Http11.Body.{BodyRead, is_body_ok}
use http_request_client.Http11.Response.{
  Received, close_session_if_single_use, number_of, receive_http11_response,
}
use http_request_client.Http11.Body.Blame.{IsHonest, read_body-IsHonestBody}

module _ (d : Decompressors) where
  -- Before the response the sink, if there is one, has not handed out its cancellation.
  abbrev pub IsUntaken : Option (ResponseSink d) → Type 0
  IsUntaken none = Unit
  IsUntaken (some sink) = sink.cancellation_taken ≡ false

  record IsBlamedFunnel (f : Funnel d) : Type 0 where
    blamed : IsBlamed d f.stream f.sink

  pick-IsBlamedFunnel :
      {x y : Funnel d} (test : Bool)
      → IsBlamedFunnel x
      → IsBlamedFunnel y
      → IsBlamedFunnel (if test then x else y)
  pick-IsBlamedFunnel true p q = p
  pick-IsBlamedFunnel false p q = q

  record IsBlamedPair (pair : Stream d × ResponseSink d) : Type 0 where
    blamed : IsBlamed d pair.0 (some pair.1)

  pick-IsBlamedPair :
      {x y : Stream d × ResponseSink d} (test : Bool)
      → IsBlamedPair x
      → IsBlamedPair y
      → IsBlamedPair (if test then x else y)
  pick-IsBlamedPair true p q = p
  pick-IsBlamedPair false p q = q

  prepare-IsBlamedPair :
      (stream : Stream d) (sink : ResponseSink d)
      → is_error stream.error ≡ false
      → sink.cancellation_taken ≡ false
      → IsBlamedPair (prepare_stream_decoder d stream sink)
  unfolding prepare_stream_decoder
  prepare-IsBlamedPair stream sink fine untaken =
      elim (Option-cases (d.build (detect_content_encoding stream.headers))) [
        | inl e ↦
            rw (prepare_stream_decoder, e)
              (pick-IsBlamedPair
                (not (is_requested sink.decompress_mask (detect_content_encoding stream.headers)))
                (record { blamed = (λ h. absurd cc, untaken) })
                (record { blamed = (λ h. refl, untaken) }))
        | inr (state, e) ↦
            rw (prepare_stream_decoder, e)
              (pick-IsBlamedPair
                (not (is_requested sink.decompress_mask (detect_content_encoding stream.headers)))
                (record { blamed = (λ h. absurd cc, untaken) })
                (record { blamed = (λ h. absurd cc, untaken) }))
      ]

  note-IsBlamedFunnel :
      (called : Bool) (e : Event) (stream : Stream d) (sink : ResponseSink d)
      → IsBlamedPair (stream, sink)
      → IsBlamedFunnel (record { stream = stream; sink = some (note d called e sink) })
  note-IsBlamedFunnel true e stream sink p = record { blamed = p.blamed }
  note-IsBlamedFunnel false e stream sink p = record { blamed = p.blamed }

  deliver-IsBlamedFunnel :
      (stream : Stream d) (sink : Option (ResponseSink d))
      → is_error stream.error ≡ false
      → IsUntaken sink
      → IsBlamedFunnel (deliver_response_headers d (record { stream = stream; sink = sink }))
  unfolding deliver_response_headers
  deliver-IsBlamedFunnel stream none fine untaken = record { blamed = fine }
  deliver-IsBlamedFunnel stream (some sink) fine untaken =
      pick-IsBlamedFunnel sink.headers_delivered (record { blamed = (λ e. absurd cc, untaken) })
        (note-IsBlamedFunnel sink.contract.has_headers _ _ _
          (prepare-IsBlamedPair stream (record sink { headers_delivered = true }) fine untaken))

  taken_stream_of :
      (stream : Stream d) (sink : Option (ResponseSink d))
      → (take_response_cancellation d (record { stream = stream; sink = sink })).1.stream ≡ stream
  unfolding take_response_cancellation
  taken_stream_of stream none = refl
  taken_stream_of stream (some sink) =
      elim (Bool-cases (not sink.cancelled || sink.cancellation_taken)) [
        | inl h ↦ rw (take_response_cancellation, h) refl
        | inr h ↦ rw (take_response_cancellation, h) refl
      ]

  taken_blamed_of :
      (stream : Stream d) (sink : Option (ResponseSink d))
      → IsBlamed d stream sink
      → is_error stream.error ≡ true
      → (take_response_cancellation d (record { stream = stream; sink = sink })).0 ≡ true
  unfolding take_response_cancellation
  taken_blamed_of stream none blamed bad = cc
  taken_blamed_of stream (some sink) blamed bad =
      rw (take_response_cancellation, blamed.0 bad, blamed.1) refl

  taken_stream : (f : Funnel d) → (take_response_cancellation d f).1.stream ≡ f.stream
  taken_stream f = taken_stream_of f.stream f.sink

  taken_blamed :
      (f : Funnel d)
      → IsBlamed d f.stream f.sink
      → is_error f.stream.error ≡ true
      → (take_response_cancellation d f).0 ≡ true
  taken_blamed f blamed bad = taken_blamed_of f.stream f.sink blamed bad

  or_parts : (a b c e g : Bool) → ((a || (b || (c || e))) || g) ≡ false → (b ≡ false) × (c ≡ false)
  or_parts a b c e g h = ground arith

  blame_closes :
      (until_close going_away : Bool) (body : BodyRead d)
      → IsHonest d body
      → is_error body.1.0.stream.error ≡ true
      → (close_session_if_single_use d going_away until_close body).going_away ≢ false
  unfolding close_session_if_single_use
  blame_closes until_close going_away body p bad h =
      let parts = or_parts until_close _ (not (is_body_ok d body.0)) _ going_away h in
      elim (Bool-cases (is_body_ok d body.0)) [
        | inl ok ↦ let cancelled = taken_blamed body.1.0 (p.holds ok) bad in cc
        | inr not_ok ↦ cc
      ]

  closed-reuse :
      (going_away until_close : Bool) (body : BodyRead d)
      → IsHonest d body
      → (close_session_if_single_use d going_away until_close body).going_away ≡ false
      → is_error (close_session_if_single_use d going_away until_close body).funnel.stream.error
        ≡ false
  unfolding close_session_if_single_use
  closed-reuse going_away until_close body p h =
      elim (Bool-cases (is_error body.1.0.stream.error)) [
        | inl bad ↦ absurd (blame_closes until_close going_away body p bad h)
        | inr fine ↦ ap (λ (t : Stream d). is_error t.error) (taken_stream body.1.0) ∙ fine
      ]

  record IsReusable (result : Received d) : Type 0 where
    holds : result.going_away ≡ false → is_error result.funnel.stream.error ≡ false

  pick-IsReusable :
      {x y : Received d} (test : Bool)
      → (test ≡ true → IsReusable x)
      → (test ≡ false → IsReusable y)
      → IsReusable (if test then x else y)
  pick-IsReusable true p q = p refl
  pick-IsReusable false p q = q refl

  -- A session that stays open behind a response of HTTP/1.1 has seen no error in it: every error of
  -- the reader, the funnel or the consumer makes the session go away.
  pub receive_http11_response-reuse :
      (method : List ℕ) (going_away : Bool) (f : Funnel d) (r : Reader)
      → IsUntaken f.sink
      → (receive_http11_response d method going_away f r).going_away ≡ false
      → is_error (receive_http11_response d method going_away f r).funnel.stream.error ≡ false
  unfolding receive_http11_response
  receive_http11_response-reuse method going_away f r untaken stays_open =
      let head = read_response_head d f.stream r in
      let delivered = deliver_response_headers d (record f { stream = head.1.0 }) in
      let result : IsReusable (receive_http11_response d method going_away f r) =
        pick-IsReusable (is_error head.1.0.error) (λ bad. record { holds = λ h. absurd cc })
          (λ fine.
            let blamed = deliver-IsBlamedFunnel head.1.0 f.sink fine untaken in
            let body =
              read_body-IsHonestBody d method delivered head.1.1 (number_of head.0) blamed.blamed in
            record { holds = closed-reuse going_away _ _ body.body }) in
      result.holds stays_open
