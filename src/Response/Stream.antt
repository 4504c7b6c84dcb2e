-- ===== src/Response/Stream.antt =====
-- src/ResponseStream.c: the sink behind a response, which delivers the body to the caller's
-- callbacks or collects it. Allocations succeed; the clock (`lastActivityTime`) is left out.
-- The content decoders stand behind an interface. A caller's callbacks are a function of what was
-- called before, which a log in the sink keeps, newest first.
use http_request_client.Prelude.{
  ℕ, ◌+◌, ◌/◌, ◌%◌, List, [], ◌∷◌, ◌++◌, Option, none, some, Bool, true, false, not, ◌&&◌, ◌||◌,
  ◌==◌, if◌then◌else◌, length,
}
use http_request_client.Prelude.Text.{codes, str_case_eq}
use http_request_client.Errors.{
  Error, is_error, is_some, err_none, err_response_gzip_inflate_failed,
  err_response_brotli_inflate_failed, err_response_deflate_inflate_failed,
  err_response_zstd_inflate_failed, err_response_inflate_unknown_error,
  err_response_stream_aborted_by_consumer,
}
use http_request_client.Hpack.Block.{ResponseHeader}

pub data ContentEncoding : Type 0 where
  identity : ContentEncoding
  gzip : ContentEncoding
  deflate : ContentEncoding
  brotli : ContentEncoding
  zstd : ContentEncoding

-- The incremental decoders of zlib, brotli and zstd: `feed` gives the pieces that one chunk of input
-- decodes to, whether decoding failed behind them, and the new state.
pub record Decompressors : Type 1 where
  pub State : Type 0
  pub build : ContentEncoding → Option State
  pub feed : State → List ℕ → List (List ℕ) × (Bool × State)

-- `decompressMask & encoding`, with the values of the enum.
unfoldable pub is_requested : ℕ → ContentEncoding → Bool
is_requested mask ContentEncoding.identity = false
is_requested mask ContentEncoding.gzip = mask % 2 == 1
is_requested mask ContentEncoding.deflate = mask / 2 % 2 == 1
is_requested mask ContentEncoding.brotli = mask / 4 % 2 == 1
is_requested mask ContentEncoding.zstd = mask / 8 % 2 == 1

unfoldable pub detect_content_encoding : List ResponseHeader → ContentEncoding
detect_content_encoding [] = ContentEncoding.identity
detect_content_encoding (h ∷ hs) =
    let later = detect_content_encoding hs in
    if not (str_case_eq h.name (codes "content-encoding"))
    then later
    else if str_case_eq h.value (codes "gzip")
    then ContentEncoding.gzip
    else if str_case_eq h.value (codes "br")
    then ContentEncoding.brotli
    else if str_case_eq h.value (codes "deflate")
    then ContentEncoding.deflate
    else if str_case_eq h.value (codes "zstd")
    then ContentEncoding.zstd
    else ContentEncoding.identity

unfoldable pub decode_error : ContentEncoding → Error
decode_error ContentEncoding.gzip = err_response_gzip_inflate_failed
decode_error ContentEncoding.brotli = err_response_brotli_inflate_failed
decode_error ContentEncoding.deflate = err_response_deflate_inflate_failed
decode_error ContentEncoding.zstd = err_response_zstd_inflate_failed
decode_error ContentEncoding.identity = err_response_inflate_unknown_error

-- A call of a callback; for `onData`, with its answer.
pub data Event : Type 0 where
  headers : List ResponseHeader → Event
  body : List ℕ → Bool → Event
  complete : Error → Event

-- Which callbacks are given, and whether `onData` asks to stop.
pub record Contract : Type 0 where
  pub has_headers : Bool
  pub has_data : Bool
  pub has_complete : Bool
  pub stops : List Event → List ℕ → Bool

module _ (d : Decompressors) where
  pub record ResponseSink : Type 0 where
    pub contract : Contract
    pub collecting : Bool
    pub decompress_mask : ℕ
    pub encoding : ContentEncoding
    pub decompressor : Option d.State
    pub delivered : ℕ
    pub error : Error
    pub headers_delivered : Bool
    pub completed : Bool
    pub aborted : Bool
    pub cancelled : Bool
    pub cancellation_taken : Bool
    pub log : List Event

  -- The fields of a stream that the funnel reads and writes, without its sink.
  pub record Stream : Type 0 where
    pub headers : List ResponseHeader
    pub combined_payload : List ℕ
    pub payload_decoded : Bool
    pub error : Error

  -- A stream with its sink, if it has one.
  pub record Funnel : Type 0 where
    pub stream : Stream
    pub sink : Option ResponseSink

  -- `BodyDelivery`, with what its pointers lead to.
  pub record BodyDelivery : Type 0 where
    pub stream : Stream
    pub sink : ResponseSink
    pub delivered : ℕ

  -- What `feedStreamDecompressor` returns: 1, 0 or -1.
  pub data Feed : Type 0 where
    consumed : Feed
    stopped : Feed
    failed : Feed

  unfoldable pub prepare_stream_decoder : Stream → ResponseSink → Stream × ResponseSink
  unfolding detect_content_encoding
  prepare_stream_decoder stream sink =
      let encoding = detect_content_encoding stream.headers in
      let known = record sink { encoding = encoding } in
      if not (is_requested sink.decompress_mask encoding)
      then (stream, known)
      else elim (d.build encoding) [
        | none ↦ (
          record stream { error = err_response_inflate_unknown_error },
          record known { error = err_response_inflate_unknown_error; cancelled = true },
        )
        | some state ↦
            (record stream { payload_decoded = true }, record known { decompressor = some state })
      ]

  abbrev pub note : Bool → Event → ResponseSink → ResponseSink
  note called e sink = if called then record sink { log = e ∷ sink.log } else sink

  unfoldable pub deliver_response_headers : Funnel → Funnel
  unfolding prepare_stream_decoder
  deliver_response_headers f = elim f.sink [
    | none ↦ f
    | some sink ↦
        let (stream, prepared) =
          prepare_stream_decoder f.stream (record sink { headers_delivered = true }) in
        if sink.headers_delivered then f else record {
          stream = stream;
          sink = some (note sink.contract.has_headers (Event.headers f.stream.headers) prepared);
        }
  ]

  unfoldable pub buffer_stream_payload : Stream → List ℕ → Stream
  buffer_stream_payload stream bytes = record stream {
    combined_payload = stream.combined_payload ++ bytes;
  }

  unfoldable pub abort_response_sink : Stream → ResponseSink → Stream × ResponseSink
  abort_response_sink stream sink = (
    record stream { error = err_response_stream_aborted_by_consumer },
    record sink {
      aborted = true;
      cancelled = true;
      error = err_response_stream_aborted_by_consumer;
    },
  )

  -- The answer is true when the consumer wants no more.
  unfoldable pub consume_response_body : BodyDelivery → List ℕ → Bool × BodyDelivery
  unfolding buffer_stream_payload abort_response_sink
  consume_response_body b bytes =
      let stop = b.sink.contract.stops b.sink.log bytes in
      let noted = record b.sink { log = Event.body bytes stop ∷ b.sink.log } in
      let (stream, sink) = abort_response_sink b.stream noted in
      if b.sink.collecting
      then (
        false,
        record b {
          stream = buffer_stream_payload b.stream bytes;
          delivered = b.delivered + length bytes;
        },
      )
      else if not b.sink.contract.has_data
      then (false, b)
      else if stop
      then (true, record b { stream = stream; sink = sink })
      else (false, record b { sink = noted; delivered = b.delivered + length bytes })

  -- The pieces of a decoded chunk, one after another, until the consumer stops.
  unfoldable pub consume_pieces : BodyDelivery → List (List ℕ) → Bool × BodyDelivery
  unfolding consume_response_body
  consume_pieces b [] = (false, b)
  consume_pieces b (piece ∷ pieces) =
      let (stop, after) = consume_response_body b piece in
      let more = consume_pieces after pieces in if stop then (true, after) else more

  -- A NULL decompressor passes the chunk through.
  unfoldable pub feed_stream_decompressor :
      Option d.State → BodyDelivery → List ℕ → Feed × (BodyDelivery × Option d.State)
  unfolding consume_pieces consume_response_body
  feed_stream_decompressor none b bytes =
      let (stop, after) = consume_response_body b bytes in
      (if stop then Feed.stopped else Feed.consumed, (after, none))
  feed_stream_decompressor (some state) b bytes =
      let (pieces, (failure, next)) = d.feed state bytes in
      let (stop, after) = consume_pieces b pieces in
      (
        if stop then Feed.stopped else if failure then Feed.failed else Feed.consumed,
        (after, some next),
      )

  abbrev pub is_consumed : Feed → Bool
  is_consumed Feed.consumed = true
  is_consumed Feed.stopped = false
  is_consumed Feed.failed = false

  abbrev pub is_failed : Feed → Bool
  is_failed Feed.consumed = false
  is_failed Feed.stopped = false
  is_failed Feed.failed = true

  -- Whether to keep reading, and the new state.
  unfoldable pub deliver_stream_payload :
      Stream → ResponseSink → List ℕ → Bool × (Stream × ResponseSink)
  unfolding feed_stream_decompressor
  deliver_stream_payload stream sink bytes =
      let (result, (b, next)) =
        feed_stream_decompressor sink.decompressor
          (record { stream = stream; sink = sink; delivered = 0 }) bytes in
      let fed = record b.sink { decompressor = next; delivered = b.sink.delivered + b.delivered } in
      let error = decode_error fed.encoding in
      let keep_reading = is_consumed result && not fed.aborted in
      if sink.aborted
      then (false, (stream, sink))
      else if is_failed result && not (is_error fed.error)
      then (
        keep_reading,
        (record b.stream { error = error }, record fed { error = error; cancelled = true }),
      )
      else (keep_reading, (b.stream, fed))

  unfoldable pub append_stream_payload : Funnel → List ℕ → Bool × Funnel
  unfolding deliver_stream_payload buffer_stream_payload
  append_stream_payload f bytes = if length bytes == 0 then (true, f) else elim f.sink [
    | none ↦ (true, record f { stream = buffer_stream_payload f.stream bytes })
    | some sink ↦
        let (keep_reading, (stream, after)) = deliver_stream_payload f.stream sink bytes in
        (keep_reading, record { stream = stream; sink = some after })
  ]

  unfoldable pub complete_response_sink : Funnel → Funnel
  complete_response_sink f = elim f.sink [
    | none ↦ f
    | some sink ↦
        let error = if is_error sink.error then sink.error else f.stream.error in
        let closed = record sink { completed = true; decompressor = none } in
        if sink.completed then f else record f {
          sink = some (note sink.contract.has_complete (Event.complete error) closed);
        }
  ]

  unfoldable pub take_response_cancellation : Funnel → Bool × Funnel
  take_response_cancellation f = elim f.sink [
    | none ↦ (false, f)
    | some sink ↦
        if not sink.cancelled || sink.cancellation_taken
        then (false, f)
        else (true, record f { sink = some (record sink { cancellation_taken = true }) })
  ]

  unfoldable pub build_response_sink : ℕ → Option Contract → ResponseSink
  build_response_sink decompress contract = record {
    contract = elim contract [
      | none ↦ record {
        has_headers = false;
        has_data = false;
        has_complete = false;
        stops = λ log bytes. false;
      }
      | some c ↦ c
    ];
    collecting = not (is_some contract);
    decompress_mask = decompress;
    encoding = ContentEncoding.identity;
    decompressor = none;
    delivered = 0;
    error = err_none;
    headers_delivered = false;
    completed = false;
    aborted = false;
    cancelled = false;
    cancellation_taken = false;
    log = [];
  }

  -- A retried attempt has a log of its own.
  unfoldable pub prepare_stream_retry : ResponseSink → ResponseSink
  prepare_stream_retry sink = record sink {
    decompressor = none;
    encoding = ContentEncoding.identity;
    delivered = 0;
    headers_delivered = false;
    completed = false;
    aborted = false;
    cancelled = false;
    cancellation_taken = false;
    error = err_none;
    log = [];
  }

-- What the readers do with a stream's funnel, in any order.
pub data Op : Type 0 where
  deliver_headers : Op
  append : List ℕ → Op
  finish : Op
  take_cancellation : Op

module _ (d : Decompressors) where
  unfoldable pub perform : Funnel d → Op → Funnel d
  unfolding deliver_response_headers append_stream_payload complete_response_sink
      take_response_cancellation
  perform f Op.deliver_headers = deliver_response_headers d f
  perform f (Op.append bytes) = (append_stream_payload d f bytes).1
  perform f Op.finish = complete_response_sink d f
  perform f Op.take_cancellation = (take_response_cancellation d f).1

  unfoldable pub perform_all : Funnel d → List Op → Funnel d
  unfolding perform
  perform_all f [] = f
  perform_all f (op ∷ ops) = perform_all (perform f op) ops

abbrev pub is_complete_response_stream : Contract → Bool
is_complete_response_stream contract =
    contract.has_headers && (contract.has_data && contract.has_complete)
