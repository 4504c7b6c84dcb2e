-- ===== src/Http11/Response/Whole.antt =====
-- A whole response, however the network cuts it.
use http_request_client.Prelude.{
  ℕ, ◌+◌, ◌^◌, ◌≤◌, ◌<◌, ◌≡◌, refl, sym, ap, ◌∙◌, List, [], ◌∷◌, ◌++◌, Option, none, some, Bool,
  true, false, not, ◌||◌, if◌then◌else◌, length, All, arith, if_true, if_false,
}
use mathlib.Core.Path.{subst}
use http_request_client.Prelude.Text.{codes}
use http_request_client.Errors.{err_none, is_error}
use http_request_client.Hpack.Block.{ResponseHeader, response_headers_max_size}
use http_request_client.Response.Stream.{
  Decompressors, Funnel, ResponseSink, Stream, Event, note, deliver_response_headers,
  detect_content_encoding, is_requested, prepare_stream_decoder, take_response_cancellation,
}
use http_request_client.Http11.Text.{is_negative, str_to_long}
use http_request_client.Http11.Reader.{Code, Reader}
use http_request_client.Http11.Reader.Lines.{IsLine, IsReady, pending, wire_lines}
use http_request_client.Http11.Head.{read_response_head, stream_header_value}
use http_request_client.Http11.Head.Parsing.{
  IsField, IsStatusLine, StatusLine, field_lines, read_response_head-IsReceived, status_header,
  status_line, status_number,
}
use http_request_client.Http11.Body.{
  BodyRead, classify_body_error, has_no_body, is_body_ok, is_chunked, read_body, read_chunked_body,
  read_content_length_body,
}
use http_request_client.Http11.Body.Plain.{IsExtended-refl, KeepsBody}
use http_request_client.Http11.Body.Sized.{IsBodyRead, read_content_length_body-IsBodyRead}
use http_request_client.Http11.Body.Sizes.{IsDigitOf, decimal-digits, digits_number}
use http_request_client.Http11.Body.Chunked.{
  Chunk, IsChunk, IsDataChunk, content_of, read_chunked_body-IsBodyRead, wire_chunks,
}
use http_request_client.Http11.Response.{
  Received, close_session_if_single_use, connection_closed_by_peer, number_of,
  receive_http11_response,
}

-- `wire` is `text` in a framing whose end can be seen, with `rest` behind it.
pub data Framed (method : List ℕ) (status : ℕ) (headers : List ResponseHeader) (rest : List ℕ)
    : List ℕ → List ℕ → Type 0 where
  bodyless : has_no_body method status ≡ true → Framed method status headers rest [] rest
  chunked :
      (chunks : List Chunk) (last : Chunk) (trailers : List (List ℕ))
      → has_no_body method status ≡ false
      → is_chunked (stream_header_value headers (codes "transfer-encoding")) ≡ true
      → All IsDataChunk chunks
      → IsChunk last
      → last.content ≡ []
      → All IsLine trailers
      → Framed method status headers rest
          (content_of chunks)
          (wire_chunks chunks last trailers rest)
  sized :
      (text : List ℕ) (digit : ℕ) (digits : List ℕ)
      → has_no_body method status ≡ false
      → is_chunked (stream_header_value headers (codes "transfer-encoding")) ≡ false
      → stream_header_value headers (codes "content-length") ≡ some (digit ∷ digits)
      → All (IsDigitOf 10) (digit ∷ digits)
      → digits_number 10 0 (digit ∷ digits) ≡ length text
      → length text < 2 ^ 63
      → Framed method status headers rest text (text ++ rest)

or_false : (b : Bool) → b || false ≡ b
or_false true = refl
or_false false = refl

module _ (d : Decompressors) where
  classify_done :
      (result : BodyRead d) → result.0 ≡ Code.done → classify_body_error d result ≡ result
  unfolding classify_body_error
  classify_done result done = if_true (is_body_ok d result.0) _ _ (ap (is_body_ok d) done)

  classified :
      (f : Funnel d) (text rest : List ℕ) (result : BodyRead d)
      → IsBodyRead d f text rest result
      → IsBodyRead d f text rest (classify_body_error d result)
  classified f text rest result p =
      subst (IsBodyRead d f text rest) (sym (classify_done result p.success)) p

  -- A body in such a framing is read to its end, and the session can stay open behind it.
  record IsBodyDone (f : Funnel d) (text rest : List ℕ) (result : Bool × BodyRead d) : Type 0 where
    stays_open : result.0 ≡ false
    body : IsBodyRead d f text rest result.1

  as_done :
      (f : Funnel d) (text rest : List ℕ) (body : BodyRead d) (result : Bool × BodyRead d)
      → result ≡ (false, body)
      → IsBodyRead d f text rest body
      → IsBodyDone f text rest result
  as_done f text rest body result e p =
      subst (IsBodyDone f text rest) (sym e) (record { stays_open = refl; body = p })

  module _ (method : List ℕ) (status : ℕ) (f : Funnel d) (r : Reader) where
    abbrev coding : Option (List ℕ)
    coding = stream_header_value f.stream.headers (codes "transfer-encoding")

    body_none :
        has_no_body method status ≡ true
        → read_body d method f r status ≡ (false, (Code.done, (f, r)))
    unfolding read_body
    body_none none_expected = if_true (has_no_body method status) _ _ none_expected

    body_chunked :
        has_no_body method status ≡ false
        → is_chunked coding ≡ true
        → read_body d method f r status ≡ (false, classify_body_error d (read_chunked_body d f r))
    unfolding read_body
    body_chunked some_body chunks =
        if_false (has_no_body method status) _ _ some_body ∙ if_true (is_chunked coding) _ _ chunks

    body_sized :
        (text : List ℕ) (n : ℕ)
        → has_no_body method status ≡ false
        → is_chunked coding ≡ false
        → stream_header_value f.stream.headers (codes "content-length") ≡ some text
        → str_to_long 10 text ≡ record { negative = false; magnitude = n }
        → read_body d method f r status
          ≡ (false, classify_body_error d (read_content_length_body d f r n))
    unfolding read_body is_negative
    body_sized text n some_body no_chunks announced number =
        if_false (has_no_body method status) _ _ some_body
        ∙ if_false (is_chunked coding) _ _ no_chunks
        ∙ rw (announced, number) refl

  read_body-IsBodyDone :
      {method : List ℕ} {status : ℕ} {text wire rest : List ℕ} (f : Funnel d) (r : Reader)
      → Framed method status f.stream.headers rest text wire
      → KeepsBody d f.sink
      → IsReady r
      → pending r ≡ wire
      → IsBodyDone f text rest (read_body d method f r status)
  read_body-IsBodyDone {method} {status} {rest = rest} f r (bodyless none_expected) keeps ready
        same =
      as_done f [] rest (Code.done, (f, r)) _ (body_none method status f r none_expected)
        (record {
          success = refl;
          extended = IsExtended-refl d f keeps;
          remains = same;
          ready = ready;
        })
  read_body-IsBodyDone {method} {status} {rest = rest} f r
        (chunked chunks last trailers body chunks_follow data_chunks ends empty clean) keeps ready
        same =
      as_done f (content_of chunks) rest _ _ (body_chunked method status f r body chunks_follow) (
        classified f (content_of chunks) rest _ (
          read_chunked_body-IsBodyRead d chunks last trailers rest f r data_chunks ends empty clean
            keeps ready same))
  read_body-IsBodyDone {method} {status} {rest = rest} f r
        (sized text digit digits body no_chunks announced clean number small) keeps ready same =
      let value =
        decimal-digits digit digits clean (omega (arith, number))
        ∙ ap (λ n. record { negative = false; magnitude = n }) number in
      as_done f text rest _ _
        (body_sized method status f r (digit ∷ digits) (length text) body no_chunks announced value)
        (classified f text rest _
          (read_content_length_body-IsBodyRead d f r text rest keeps ready same))

  -- A sink that will keep the body as it comes, for these headers.
  abbrev pub WantsPlain : List ResponseHeader → Option (ResponseSink d) → Type 0
  WantsPlain headers none = Unit
  WantsPlain headers (some sink) =
      KeepsBody d (some sink)
      × (is_requested sink.decompress_mask (detect_content_encoding headers) ≡ false)

  record IsPrepared (stream : Stream d) (f : Funnel d) : Type 0 where
    same : f.stream ≡ stream
    keeps : KeepsBody d f.sink

  pick-IsPrepared :
      {stream : Stream d} {x y : Funnel d} (b : Bool)
      → IsPrepared stream x
      → IsPrepared stream y
      → IsPrepared stream (if b then x else y)
  pick-IsPrepared true p q = p
  pick-IsPrepared false p q = q

  note-KeepsBody :
      (called : Bool) (e : Event) (sink : ResponseSink d)
      → KeepsBody d (some sink)
      → KeepsBody d (some (note d called e sink))
  note-KeepsBody true e sink keeps = keeps
  note-KeepsBody false e sink keeps = keeps

  prepare_plain :
      (stream : Stream d) (sink : ResponseSink d)
      → is_requested sink.decompress_mask (detect_content_encoding stream.headers) ≡ false
      → prepare_stream_decoder d stream sink
        ≡ (stream, record sink { encoding = detect_content_encoding stream.headers })
  unfolding prepare_stream_decoder
  prepare_plain stream sink unwanted =
      if_true (not (is_requested sink.decompress_mask (detect_content_encoding stream.headers))) _ _
        (ap not unwanted)

  not_cancelled :
      (stream : Stream d) (sink : Option (ResponseSink d))
      → KeepsBody d sink
      → take_response_cancellation d (record { stream = stream; sink = sink })
        ≡ (false, record { stream = stream; sink = sink })
  unfolding take_response_cancellation
  not_cancelled stream none keeps = refl
  not_cancelled stream (some sink) keeps =
      if_true (not sink.cancelled || sink.cancellation_taken) _ _
        (ap (λ b. not b || sink.cancellation_taken) keeps.3)

  deliver-IsPrepared :
      (stream : Stream d) (sink : Option (ResponseSink d))
      → WantsPlain stream.headers sink
      → IsPrepared stream (deliver_response_headers d (record { stream = stream; sink = sink }))
  unfolding deliver_response_headers
  deliver-IsPrepared stream none wants = record { same = refl; keeps = tt }
  deliver-IsPrepared stream (some sink) wants =
      pick-IsPrepared sink.headers_delivered (record { same = refl; keeps = wants.0 })
        (rw (prepare_plain stream (record sink { headers_delivered = true }) wants.1)
          (record { same = refl; keeps = note-KeepsBody sink.contract.has_headers _ _ wants.0 }))

  -- What a response leaves behind that was received without an error.
  pub record IsWhole (f : Funnel d) (headers : List ResponseHeader) (text rest : List ℕ)
      (result : Received d) : Type 0 where
    pub headers_are : result.funnel.stream.headers ≡ headers
    pub payload_is : result.funnel.stream.combined_payload ≡ f.stream.combined_payload ++ text
    pub error_is : result.funnel.stream.error ≡ err_none
    pub going_away_is : result.going_away ≡ connection_closed_by_peer headers
    pub remains : pending result.reader ≡ rest
    pub ready : IsReady result.reader

  closed-IsWhole :
      (f : Funnel d) (text rest : List ℕ) (result : Bool × BodyRead d)
      → IsBodyDone f text rest result
      → f.stream.error ≡ err_none
      → IsWhole f f.stream.headers text rest (close_session_if_single_use d false result.0 result.1)
  unfolding close_session_if_single_use
  closed-IsWhole f text rest result p fine =
      let body = p.body.extended in
      let taken = not_cancelled result.1.1.0.stream result.1.1.0.sink body.keeps in
      rw (taken, p.stays_open, p.body.success, body.headers)
        (record {
          headers_are = refl;
          payload_is = body.payload;
          error_is = body.error ∙ fine;
          going_away_is = or_false (connection_closed_by_peer f.stream.headers);
          remains = p.body.remains;
          ready = p.body.ready;
        })

  receive_good :
      (method : List ℕ) (f : Funnel d) (r : Reader)
      → (let head = read_response_head d f.stream r in
          let delivered = deliver_response_headers d (record f { stream = head.1.0 }) in
          let body = read_body d method delivered head.1.1 (number_of head.0) in
          is_error head.1.0.error ≡ false
          → receive_http11_response d method false f r
            ≡ close_session_if_single_use d false body.0 body.1)
  unfolding receive_http11_response
  receive_good method f r fine =
      if_false (is_error (read_response_head d f.stream r).1.0.error) _ _ fine

  -- A response of HTTP/1.1 is received whole, however the network cuts its bytes, if its status line
  -- and at most 63 header fields are well formed (lines of less than 16384 bytes without NUL and LF,
  -- names and values without white space at their ends, names without a colon), its body is absent
  -- by the method or the status, or framed by chunks, or else by a decimal length, the stream is
  -- fresh, its sink absent or one that collects without a decoder, the session not going away, and
  -- the reader open, with at most two full reads in its buffer and only full reads or smaller ones
  -- to come. Then the headers are ":status" and the fields, the body joins the payload, there is no
  -- error, the session goes away just if the header "connection" contains "close", and what follows
  -- the response is still in the reader.
  pub receive_http11_response-IsWhole :
      (method : List ℕ) (f : Funnel d) (r : Reader) (s : StatusLine) (fields : List ResponseHeader)
      {text wire rest : List ℕ}
      → IsStatusLine s
      → All IsField fields
      → 1 + length fields ≤ response_headers_max_size
      → Framed method (status_number s) (status_header s ∷ fields) rest text wire
      → f.stream.headers ≡ []
      → f.stream.error ≡ err_none
      → WantsPlain (status_header s ∷ fields) f.sink
      → IsReady r
      → pending r ≡ wire_lines (status_line s ∷ field_lines fields) wire
      → IsWhole f (status_header s ∷ fields) text rest (receive_http11_response d method false f r)
  receive_http11_response-IsWhole method f r s fields {text} {wire} {rest} proper clean room framed
        fresh fine wants ready same =
      let head = read_response_head d f.stream r in
      let h =
        read_response_head-IsReceived d f.stream r s fields wire proper clean fresh room ready
          same in
      let prepared =
        deliver-IsPrepared head.1.0 f.sink
          (subst (λ (t : Stream d). WantsPlain t.headers f.sink) (sym h.stream_is) wants) in
      let delivered = deliver_response_headers d (record f { stream = head.1.0 }) in
      let stream_is = prepared.same ∙ h.stream_is in
      let body : IsBodyDone delivered text rest
          (read_body d method delivered head.1.1 (number_of head.0)) =
        subst (λ n. IsBodyDone delivered text rest (read_body d method delivered head.1.1 n))
          (sym (ap number_of h.status))
          (read_body-IsBodyDone delivered head.1.1
            (subst (λ (t : Stream d). Framed method (status_number s) t.headers rest text wire)
              (sym stream_is) framed)
            prepared.keeps h.ready h.remains) in
      let closed =
        closed-IsWhole delivered text rest _ body
          (ap (λ (t : Stream d). t.error) stream_is ∙ fine) in
      rw
        (receive_good method f r
          (ap (λ (t : Stream d). is_error t.error) h.stream_is ∙ ap is_error fine))
        (record {
          headers_are = closed.headers_are ∙ ap (λ (t : Stream d). t.headers) stream_is;
          payload_is =
              closed.payload_is ∙ ap (λ (t : Stream d). t.combined_payload ++ text) stream_is;
          error_is = closed.error_is;
          going_away_is =
              closed.going_away_is
              ∙ ap (λ (t : Stream d). connection_closed_by_peer t.headers) stream_is;
          remains = closed.remains;
          ready = closed.ready;
        })
