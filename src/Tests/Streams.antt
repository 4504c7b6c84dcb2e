-- ===== src/Tests/Streams.antt =====
-- Streams and header blocks on concrete connections.
use http_request_client.Prelude.{
  ℕ, ◌≡◌, refl, List, [], ◌∷◌, ◌++◌, Option, none, some, true, false, All,
}
use http_request_client.Errors.{err_none}
use http_request_client.Hpack.Table.Fits.{context}
use http_request_client.Http2.Frames.Reading.{concat}
use http_request_client.Http2.Streams.{
  HeaderState, has_flag, header_fragment, decode_block, handle_headers_frame,
}
use http_request_client.Http2.Streams.Blocks.{
  headers_payload, header_fragment_lem, continue_block, continued_block_lem,
}
use http_request_client.Http2.Dispatch.{Connection, Http2Stream, fail_all_streams}
use http_request_client.Http2.Dispatch.Failing.{
  IsOver, fail_all_streams-IsOver, fail_all_streams_twice,
}
use http_request_client.Response.Stream.{build_response_sink}
use http_request_client.Tests.Response.{doubling, contract, stream}

-- END_HEADERS, PADDED and PRIORITY.
header_fragment_example :
    header_fragment 44 (
      headers_payload
        (has_flag 44 8)
        (has_flag 44 32)
        (128 ∷ 0 ∷ 0 ∷ 0 ∷ 255 ∷ [])
        (136 ∷ [])
        (0 ∷ 0 ∷ []))
    ≡ some (136 ∷ [])
header_fragment_example = header_fragment_lem 44 128 0 0 0 255 (136 ∷ []) (0 ∷ 0 ∷ [])

abbrev state : HeaderState
state = record {
  headers = some [];
  header_block = [];
  awaiting_continuation = false;
  error = err_none;
}

-- A literal `hi: hi`, cut in four.
abbrev fragments : List (List ℕ)
fragments = (2 ∷ 104 ∷ []) ∷ (105 ∷ []) ∷ []

continued_block_example :
    continue_block
      (handle_headers_frame state (64 ∷ []) 0 (context [] 0 4096)).0
      fragments
      (2 ∷ 104 ∷ 105 ∷ [])
      (handle_headers_frame state (64 ∷ []) 0 (context [] 0 4096)).1
    ≡ decode_block state
        ((64 ∷ []) ++ (concat fragments ++ (2 ∷ 104 ∷ 105 ∷ [])))
        (context [] 0 4096)
continued_block_example =
    continued_block_lem fragments state (64 ∷ []) (2 ∷ 104 ∷ 105 ∷ []) (context [] 0 4096) refl

abbrev waiting : Http2Stream doubling
waiting = record {
  stream_id = 5;
  is_ended = false;
  funnel = record {
    stream = stream;
    sink = some (build_response_sink doubling 15 (some contract));
  };
  header_block = [];
  awaiting_continuation = false;
}

abbrev pub slots : List (Option (Http2Stream doubling))
slots = none ∷ some waiting ∷ []

abbrev pub lost : Connection
lost = record { conn_error = err_none; going_away = true; hpack_ctx = context [] 0 4096 }

fail_all_streams-IsOver_example : All (IsOver doubling) (fail_all_streams doubling lost false slots)
fail_all_streams-IsOver_example = fail_all_streams-IsOver doubling lost slots

fail_all_streams_twice_example :
    fail_all_streams doubling lost true (fail_all_streams doubling lost true slots)
    ≡ fail_all_streams doubling lost true slots
fail_all_streams_twice_example = fail_all_streams_twice doubling lost lost true slots
