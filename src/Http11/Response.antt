-- ===== src/Http11/Response.antt =====
-- src/Http11ResponseHandler.c: receiving a response, and whether the session can be used again.
pub mod Whole
pub mod Reuse
use http_request_client.Prelude.{
  ℕ, List, ◌∷◌, Option, none, some, Bool, true, false, not, ◌||◌, if◌then◌else◌,
}
use http_request_client.Prelude.Text.{codes}
use http_request_client.Errors.{is_error}
use http_request_client.Hpack.Block.{ResponseHeader}
use http_request_client.Response.Stream.{
  Decompressors, Stream, Funnel, deliver_response_headers, take_response_cancellation,
}
use http_request_client.Http11.Text.{contains_ci}
use http_request_client.Http11.Reader.{Code, Reader}
use http_request_client.Http11.Head.{read_response_head, stream_header_value}
use http_request_client.Http11.Body.{BodyRead, is_body_ok, read_body}

-- Whether the peer announced that it closes the connection.
unfoldable pub connection_closed_by_peer : List ResponseHeader → Bool
unfolding stream_header_value contains_ci
connection_closed_by_peer headers = elim (stream_header_value headers (codes "connection")) [
  | none ↦ false
  | some connection ↦ contains_ci connection (codes "close")
]

-- The status as a number; a head without one has an error, and the number is not used.
abbrev pub number_of : Option ℕ → ℕ
number_of none = 0
number_of (some n) = n

module _ (d : Decompressors) where
  -- `goingAway` of the session, with what a response leaves behind.
  pub record Received : Type 0 where
    pub funnel : Funnel d
    pub reader : Reader
    pub going_away : Bool

  unfoldable pub close_session_if_single_use : Bool → Bool → BodyRead d → Received
  unfolding take_response_cancellation connection_closed_by_peer
  close_session_if_single_use going_away until_close (code, (f, r)) =
      let (cancelled, taken) = take_response_cancellation d f in
      record {
        funnel = taken;
        reader = r;
        going_away =
            (until_close
              || (cancelled
                  || (not (is_body_ok d code) || connection_closed_by_peer taken.stream.headers)))
            || going_away;
      }

  -- A head that cannot be read has no status; the test is on the error, as the code's is.
  unfoldable pub receive_http11_response : List ℕ → Bool → Funnel d → Reader → Received
  receive_http11_response method going_away f r =
      let (status, (stream, behind_head)) = read_response_head d f.stream r in
      let delivered = deliver_response_headers d (record f { stream = stream }) in
      let number = number_of status in
      let (until_close, body) = read_body d method delivered behind_head number in
      if is_error stream.error
      then record { funnel = record f { stream = stream }; reader = behind_head; going_away = true }
      else close_session_if_single_use going_away until_close body
