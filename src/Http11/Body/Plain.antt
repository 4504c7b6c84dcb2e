-- ===== src/Http11/Body/Plain.antt =====
-- The funnel of a response that is kept as it comes: without a sink, or with one that collects and
-- has no decoder.
use http_request_client.Prelude.{
  ℕ, ◌≡◌, refl, sym, ap, ◌∙◌, List, [], ◌∷◌, ◌++◌, append-nil, append_assoc, Option, none, some,
  Bool, true, false, ◌==◌, if◌then◌else◌, length, arith,
}
use mathlib.Core.Path.{subst}
use http_request_client.Response.Stream.{
  Decompressors, Funnel, ResponseSink, Stream, append_stream_payload, buffer_stream_payload,
  consume_response_body, deliver_stream_payload, feed_stream_decompressor,
}

module _ (d : Decompressors) where
  abbrev pub KeepsBody : Option (ResponseSink d) → Type 0
  KeepsBody none = Unit
  KeepsBody (some sink) =
      (sink.collecting ≡ true)
      × (sink.aborted ≡ false)
      × (sink.decompressor ≡ none)
      × (sink.cancelled ≡ false)

  -- `after` is `before` with this text behind its payload.
  pub record IsExtended (before : Funnel d) (text : List ℕ) (after : Funnel d) : Type 0 where
    pub headers : after.stream.headers ≡ before.stream.headers
    pub payload : after.stream.combined_payload ≡ before.stream.combined_payload ++ text
    pub error : after.stream.error ≡ before.stream.error
    pub keeps : KeepsBody after.sink

  pub IsExtended-refl : (f : Funnel d) → KeepsBody f.sink → IsExtended f [] f
  IsExtended-refl f keeps = record {
    headers = refl;
    payload = sym (append-nil f.stream.combined_payload);
    error = refl;
    keeps = keeps;
  }

  pub IsExtended-append :
      (f g h : Funnel d) (one two : List ℕ)
      → IsExtended f one g
      → IsExtended g two h
      → IsExtended f (one ++ two) h
  IsExtended-append f g h one two p q = record {
    headers = q.headers ∙ p.headers;
    payload =
        q.payload ∙ ap (λ t. t ++ two) p.payload ∙ append_assoc f.stream.combined_payload one two;
    error = q.error ∙ p.error;
    keeps = q.keeps;
  }

  pub record IsAccepted (f : Funnel d) (text : List ℕ) (result : Bool × Funnel d) : Type 0 where
    pub goes_on : result.0 ≡ true
    pub extended : IsExtended f text result.1

  -- A sink whose fields are those of one that keeps the body.
  abbrev keeping : ResponseSink d → ResponseSink d
  keeping sink = record sink {
    collecting = true;
    aborted = false;
    decompressor = none;
    cancelled = false;
  }

  otherwise-IsAccepted :
      {f : Funnel d} {text : List ℕ} {y : Bool × Funnel d} (b : Bool) (x : Bool × Funnel d)
      → b ≡ false
      → IsAccepted f text y
      → IsAccepted f text (if b then x else y)
  otherwise-IsAccepted true x h p = absurd cc
  otherwise-IsAccepted false x h p = p

  keeping-IsAccepted :
      (stream : Stream d) (sink : ResponseSink d) (b : ℕ) (bs : List ℕ)
      → IsAccepted
          (record { stream = stream; sink = some (keeping sink) })
          (b ∷ bs)
          (append_stream_payload d
            (record { stream = stream; sink = some (keeping sink) })
            (b ∷ bs))
  unfolding append_stream_payload deliver_stream_payload feed_stream_decompressor
      consume_response_body buffer_stream_payload
  keeping-IsAccepted stream sink b bs =
      otherwise-IsAccepted (length (b ∷ bs) == 0) _ (ground arith) (record {
        goes_on = refl;
        extended = record {
          headers = refl;
          payload = refl;
          error = refl;
          keeps = (refl, refl, refl, refl);
        };
      })

  append-IsAccepted :
      (sink : Option (ResponseSink d)) (stream : Stream d) (bytes : List ℕ)
      → KeepsBody sink
      → IsAccepted
          (record { stream = stream; sink = sink })
          bytes
          (append_stream_payload d (record { stream = stream; sink = sink }) bytes)
  unfolding append_stream_payload buffer_stream_payload
  append-IsAccepted sink stream [] keeps = record {
    goes_on = refl;
    extended = IsExtended-refl (record { stream = stream; sink = sink }) keeps;
  }
  append-IsAccepted none stream (b ∷ bs) keeps =
      otherwise-IsAccepted (length (b ∷ bs) == 0) _ (ground arith) (record {
        goes_on = refl;
        extended = record { headers = refl; payload = refl; error = refl; keeps = tt };
      })
  append-IsAccepted (some sink) stream (b ∷ bs) keeps =
      let same : keeping sink ≡ sink = cc (keeps.0, keeps.1, keeps.2, keeps.3) in
      subst
        (λ s.
          IsAccepted (record { stream = stream; sink = some s }) (b ∷ bs)
            (append_stream_payload d (record { stream = stream; sink = some s }) (b ∷ bs)))
        same (keeping-IsAccepted stream sink b bs)

  pub append_stream_payload-IsAccepted :
      (f : Funnel d) (bytes : List ℕ)
      → KeepsBody f.sink
      → IsAccepted f bytes (append_stream_payload d f bytes)
  append_stream_payload-IsAccepted f bytes keeps = append-IsAccepted f.sink f.stream bytes keeps
