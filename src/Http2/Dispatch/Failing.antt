-- ===== src/Http2/Dispatch/Failing.antt =====
-- Failing the streams of a connection.
use http_request_client.Prelude.{
  ◌≡◌, refl, sym, ap, ap₂, ◌∙◌, inl, inr, List, [], ◌∷◌, Option, none, some, Bool, true, false, not,
  ◌&&◌, ◌||◌, Bool-cases, if_true, if_false, All,
}
use http_request_client.Response.Stream.{Decompressors}
use http_request_client.Http2.Dispatch.{
  Connection, Http2Stream, is_empty, fail_stream, fail_all_streams,
}

module _ (d : Decompressors) where
  -- A free slot, or a stream that has ended.
  abbrev pub IsOver : Option (Http2Stream d) → Type 0
  IsOver none = Unit
  IsOver (some s) = s.is_ended ≡ true

  fail_stream-ends :
      (conn : Connection) (s : Http2Stream d) → (fail_stream d conn false s).is_ended ≡ true
  unfolding fail_stream
  fail_stream-ends conn s = elim (Bool-cases s.is_ended) [
    | inl over ↦
        ap (λ (t : Http2Stream d). t.is_ended)
          (if_false (not s.is_ended && true) _ _ (ap (λ b. not b && true) over))
        ∙ over
    | inr open_still ↦
        ap (λ (t : Http2Stream d). t.is_ended)
          (if_true (not s.is_ended && true) _ _ (ap (λ b. not b && true) open_still))
  ]

  -- When a connection is lost, every stream of the registry has ended afterwards.
  pub fail_all_streams-IsOver :
      (conn : Connection) (slots : List (Option (Http2Stream d)))
      → All IsOver (fail_all_streams d conn false slots)
  unfolding fail_all_streams
  fail_all_streams-IsOver conn [] = tt
  fail_all_streams-IsOver conn (none ∷ slots) = (tt, fail_all_streams-IsOver conn slots)
  fail_all_streams-IsOver conn (some s ∷ slots) =
      (fail_stream-ends conn s, fail_all_streams-IsOver conn slots)

  -- An ended stream stays as it is.
  fail_ended :
      (conn : Connection) (only_pending : Bool) (s : Http2Stream d)
      → s.is_ended ≡ true
      → fail_stream d conn only_pending s ≡ s
  unfolding fail_stream
  fail_ended conn only_pending s over =
      if_false (not s.is_ended && (not only_pending || is_empty d s.funnel.stream.headers)) _ _
        (ap (λ b. not b && (not only_pending || is_empty d s.funnel.stream.headers)) over)

  fail_twice :
      (conn conn' : Connection) (only_pending : Bool) (s : Http2Stream d)
      → fail_stream d conn' only_pending (fail_stream d conn only_pending s)
        ≡ fail_stream d conn only_pending s
  unfolding fail_stream
  fail_twice conn conn' only_pending s =
      elim (Bool-cases
        (not s.is_ended && (not only_pending || is_empty d s.funnel.stream.headers))) [
          | inl fails ↦
              let one =
                if_true (not s.is_ended && (not only_pending || is_empty d s.funnel.stream.headers))
                  _ _ fails in
              fail_ended conn' only_pending (fail_stream d conn only_pending s)
                (ap (λ (t : Http2Stream d). t.is_ended) one)
          | inr stays ↦
              let same : fail_stream d conn only_pending s ≡ s = if_false _ _ _ stays in
              let again : fail_stream d conn' only_pending s ≡ s = if_false _ _ _ stays in
              ap (fail_stream d conn' only_pending) same ∙ again ∙ sym same
        ]

  -- A stream is failed once: failing the registry again in the same mode, for whatever reason,
  -- changes no stream.
  pub fail_all_streams_twice :
      (conn conn' : Connection) (only_pending : Bool) (slots : List (Option (Http2Stream d)))
      → fail_all_streams d conn' only_pending (fail_all_streams d conn only_pending slots)
        ≡ fail_all_streams d conn only_pending slots
  unfolding fail_all_streams
  fail_all_streams_twice conn conn' only_pending [] = refl
  fail_all_streams_twice conn conn' only_pending (none ∷ slots) =
      ap (λ t. none ∷ t) (fail_all_streams_twice conn conn' only_pending slots)
  fail_all_streams_twice conn conn' only_pending (some s ∷ slots) =
      ap₂ (λ t ts. some t ∷ ts) (fail_twice conn conn' only_pending s)
        (fail_all_streams_twice conn conn' only_pending slots)
