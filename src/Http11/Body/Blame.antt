-- ===== src/Http11/Body/Blame.antt =====
-- The errors of a body that was read: only one that cancels the response.
use http_request_client.Prelude.{
  ℕ, zero, suc, ◌-◌, ◌≡◌, refl, List, [], ◌∷◌, Option, none, some, Bool, true, false, not, ◌==◌,
  ltb, if◌then◌else◌, length, take,
}
use http_request_client.Errors.{is_error}
use http_request_client.Response.Stream.{Decompressors, Funnel, append_stream_payload}
use http_request_client.Response.Stops.{IsBlamed, append_stream_payload-KeepsBlame}
use http_request_client.Http11.Reader.{
  Code, Read, Reader, is_done, is_stopped, reader_end_code, reader_fill, reader_read_line,
}
use http_request_client.Http11.Head.{available}
use http_request_client.Http11.Body.{
  BodyRead, body_rounds, chunk_rounds, chunk_size, classify_body_error, has_no_body, is_body_ok,
  is_chunked, read_body, read_chunked_body, read_content_length_body, read_until_close_body,
  read_unchunked_body, reader_read_body, trailer_rounds, until_close_rounds,
}
use http_request_client.Http11.Text.{is_negative, str_to_long}

module _ (d : Decompressors) where
  -- A body that was read has no error but one that cancels the response.
  pub record IsHonest (result : BodyRead d) : Type 0 where
    pub holds : is_body_ok d result.0 ≡ true → IsBlamed d result.1.0.stream result.1.0.sink

  pick-IsHonest :
      {x y : BodyRead d} (test : Bool)
      → (test ≡ true → IsHonest x)
      → (test ≡ false → IsHonest y)
      → IsHonest (if test then x else y)
  pick-IsHonest true p q = p refl
  pick-IsHonest false p q = q refl

  stays :
      (code : Code) (f : Funnel d) (r : Reader)
      → IsBlamed d f.stream f.sink
      → IsHonest (code, (f, r))
  stays code f r blamed = record { holds = λ h. blamed }

  fails : (f : Funnel d) (r : Reader) → IsHonest (Code.failed, (f, r))
  fails f r = record { holds = λ h. absurd cc }

  body_rounds-IsHonest :
      (fuel : ℕ) (f : Funnel d) (r : Reader) (n : ℕ)
      → IsBlamed d f.stream f.sink
      → IsHonest (body_rounds d fuel f r n)
  unfolding body_rounds
  body_rounds-IsHonest zero f r n blamed = fails f r
  body_rounds-IsHonest (suc fuel) f r n blamed =
      let amount = if ltb n (length r.unread) then n else length r.unread in
      let fed = append_stream_payload d f (take amount r.unread) in
      let kept = append_stream_payload-KeepsBlame d f (take amount r.unread) in
      pick-IsHonest (n == 0) (λ h. stays Code.done f r blamed)
        (λ h.
          pick-IsHonest (ltb 0 (length r.unread))
            (λ h.
              pick-IsHonest fed.0
                (λ accepted.
                  body_rounds-IsHonest fuel fed.1 _ (n - amount) (kept.holds accepted blamed))
                (λ refused. fails fed.1 _))
            (λ h.
              pick-IsHonest (is_stopped r) (λ h. stays (reader_end_code r) f r blamed)
                (λ h. body_rounds-IsHonest fuel f (reader_fill r) n blamed)))

  done_ok : (code : Code) → not (is_done code) ≡ false → is_body_ok d code ≡ true
  done_ok Code.done h = refl
  done_ok Code.ended h = cc
  done_ok Code.failed h = cc
  done_ok Code.timed_out h = cc

  chunk_rounds-IsHonest :
      (fuel : ℕ) (f : Funnel d) (r : Reader)
      → IsBlamed d f.stream f.sink
      → IsHonest (chunk_rounds d fuel f r)
  unfolding chunk_rounds reader_read_body
  chunk_rounds-IsHonest zero f r blamed = fails f r
  chunk_rounds-IsHonest (suc fuel) f r blamed =
      let line = reader_read_line r in
      let size = chunk_size line.1.0 in
      let body = reader_read_body d f line.1.1 size.magnitude in
      let p : IsHonest body = body_rounds-IsHonest _ f line.1.1 size.magnitude blamed in
      pick-IsHonest (not (is_done line.0)) (λ h. stays line.0 f line.1.1 blamed)
        (λ h.
          pick-IsHonest (is_negative size) (λ h. fails f line.1.1)
            (λ h.
              pick-IsHonest (size.magnitude == 0)
                (λ h. stays (trailer_rounds (suc fuel) line.1.1).0 f _ blamed)
                (λ h.
                  pick-IsHonest (not (is_done body.0)) (λ h. p)
                    (λ done.
                      let still = p.holds (done_ok body.0 done) in
                      pick-IsHonest (not (is_done (reader_read_line body.1.1).0))
                        (λ h. stays _ body.1.0 _ still)
                        (λ h. chunk_rounds-IsHonest fuel body.1.0 _ still)))))

  until_close-IsHonest :
      (reads : List Read) (f : Funnel d) (r : Reader)
      → IsBlamed d f.stream f.sink
      → IsHonest (until_close_rounds d f r reads)
  unfolding until_close_rounds
  until_close-IsHonest [] f r blamed = record { holds = λ h. absurd cc }
  until_close-IsHonest (Read.bytes b bs ∷ reads) f r blamed =
      let fed = append_stream_payload d f (b ∷ bs) in
      let kept = append_stream_payload-KeepsBlame d f (b ∷ bs) in
      pick-IsHonest fed.0
        (λ accepted. until_close-IsHonest reads fed.1 r (kept.holds accepted blamed))
        (λ refused. fails fed.1 _)
  until_close-IsHonest (Read.closed ∷ reads) f r blamed = stays Code.ended f _ blamed
  until_close-IsHonest (Read.failed ∷ reads) f r blamed = fails f _
  until_close-IsHonest (Read.timed_out ∷ reads) f r blamed = record { holds = λ h. absurd cc }

  classify-IsHonest :
      (result : BodyRead d) → IsHonest result → IsHonest (classify_body_error d result)
  unfolding classify_body_error
  classify-IsHonest result p =
      pick-IsHonest (is_body_ok d result.0) (λ ok. p)
        (λ bad.
          pick-IsHonest (is_error result.1.0.stream.error) (λ e. fails result.1.0 result.1.1)
            (λ e. fails _ result.1.1))

  -- The body with its flag.
  pub record IsHonestBody (result : Bool × BodyRead d) : Type 0 where
    pub body : IsHonest result.1

  pick-IsHonestBody :
      {x y : Bool × BodyRead d} (test : Bool)
      → IsHonestBody x
      → IsHonestBody y
      → IsHonestBody (if test then x else y)
  pick-IsHonestBody true p q = p
  pick-IsHonestBody false p q = q

  sized-IsHonest :
      (f : Funnel d) (r : Reader) (n : ℕ)
      → IsBlamed d f.stream f.sink
      → IsHonest (read_content_length_body d f r n)
  unfolding read_content_length_body reader_read_body
  sized-IsHonest f r n blamed =
      pick-IsHonest (n == 0) (λ h. stays Code.done f r blamed)
        (λ h. body_rounds-IsHonest _ f r n blamed)

  unchunked-IsHonestBody :
      (announced : Option (List ℕ)) (f : Funnel d) (r : Reader)
      → IsBlamed d f.stream f.sink
      → IsHonestBody (read_unchunked_body d announced f r)
  unfolding read_unchunked_body read_until_close_body
  unchunked-IsHonestBody none f r blamed = record {
    body = classify-IsHonest _ (until_close-IsHonest r.reads f r blamed);
  }
  unchunked-IsHonestBody (some text) f r blamed =
      pick-IsHonestBody (is_negative (str_to_long 10 text))
        (record { body = classify-IsHonest _ (fails f r) })
        (record { body = classify-IsHonest _ (sized-IsHonest f r _ blamed) })

  chunked-IsHonest :
      (f : Funnel d) (r : Reader) → IsBlamed d f.stream f.sink → IsHonest (read_chunked_body d f r)
  unfolding read_chunked_body
  chunked-IsHonest f r blamed = chunk_rounds-IsHonest (suc (available r)) f r blamed

  pub read_body-IsHonestBody :
      (method : List ℕ) (f : Funnel d) (r : Reader) (status : ℕ)
      → IsBlamed d f.stream f.sink
      → IsHonestBody (read_body d method f r status)
  unfolding read_body
  read_body-IsHonestBody method f r status blamed =
      pick-IsHonestBody (has_no_body method status) (record { body = stays Code.done f r blamed })
        (pick-IsHonestBody (is_chunked _)
          (record { body = classify-IsHonest _ (chunked-IsHonest f r blamed) })
          (unchunked-IsHonestBody _ f r blamed))
