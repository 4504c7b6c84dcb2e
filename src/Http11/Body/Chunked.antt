-- ===== src/Http11/Body/Chunked.antt =====
-- A chunked body, however the network cuts it.
use http_request_client.Prelude.{
  ℕ, zero, suc, ◌^◌, ◌<◌, ◌≡◌, refl, sym, ap, ◌∙◌, List, [], ◌∷◌, ◌++◌, false, not, ◌==◌, length,
  All, arith, if_true, if_false, length-append,
}
use mathlib.Core.Path.{subst}
use http_request_client.Response.Stream.{Decompressors, Funnel}
use http_request_client.Http11.Text.{Long, is_negative}
use http_request_client.Http11.Reader.{Code, Reader, cr, is_done, lf, read_chunk, reader_read_line}
use http_request_client.Http11.Reader.Lines.{
  IsLine, IsReady, IsText, pending, reads_line, wire_lines,
}
use http_request_client.Http11.Head.{available}
use http_request_client.Http11.Head.Parsing.{is_filled, pending-le}
use http_request_client.Http11.Body.{
  chunk_rounds, chunk_size, is_trailer_end, read_chunked_body, reader_read_body, trailer_rounds,
}
use http_request_client.Http11.Body.Plain.{IsExtended-refl, KeepsBody}
use http_request_client.Http11.Body.Sized.{
  IsBodyRead, append-IsBodyRead, reader_read_body-IsBodyRead,
}
use http_request_client.Http11.Body.Sizes.{IsExtension, IsDigitOf, chunk_size-digits, digits_number}

-- A chunk as it is sent: its size has one hexadecimal digit or more.
pub record Chunk : Type 0 where
  pub first_digit : ℕ
  pub digits : List ℕ
  pub extension : List ℕ
  pub content : List ℕ

abbrev pub size_line : Chunk → List ℕ
size_line c = (c.first_digit ∷ c.digits) ++ c.extension

pub record IsChunk (c : Chunk) : Type 0 where
  pub hexadecimal : All (IsDigitOf 16) (c.first_digit ∷ c.digits)
  pub extended : IsExtension c.extension
  pub text : IsText (size_line c)
  pub short : length (size_line c) < read_chunk
  pub size : digits_number 16 0 (c.first_digit ∷ c.digits) ≡ length c.content
  pub small : length c.content < 2 ^ 63

abbrev pub IsDataChunk : Chunk → Type 0
IsDataChunk c = IsChunk c × (0 < length c.content)

-- A chunked body with what follows it: data chunks, the last one, trailers and the empty line.
abbrev pub wire_chunks : List Chunk → Chunk → List (List ℕ) → List ℕ → List ℕ
wire_chunks [] last trailers rest = size_line last ++ cr ∷ lf ∷ wire_lines trailers rest
wire_chunks (c ∷ cs) last trailers rest =
    size_line c ++ cr ∷ lf ∷ (c.content ++ cr ∷ lf ∷ wire_chunks cs last trailers rest)

abbrev pub content_of : List Chunk → List ℕ
content_of [] = []
content_of (c ∷ cs) = c.content ++ content_of cs

chunk_size-line :
    (c : Chunk)
    → IsChunk c
    → chunk_size (size_line c) ≡ record { negative = false; magnitude = length c.content }
chunk_size-line c h =
    chunk_size-digits c.first_digit c.digits c.extension h.hexadecimal h.extended
      (omega (arith, h.size, h.small))
    ∙ ap (λ n. record { negative = false; magnitude = n }) h.size

record IsSkipped (rest : List ℕ) (result : Code × Reader) : Type 0 where
  success : result.0 ≡ Code.done
  remains : pending result.1 ≡ rest
  ready : IsReady result.1

-- The bytes of a first line are more than those behind it.
shorter :
    (text rest : List ℕ) (fuel : ℕ)
    → length (text ++ cr ∷ lf ∷ rest) < suc fuel
    → length rest < fuel
shorter text rest fuel h = omega (arith, length-append text (cr ∷ lf ∷ rest))

trailers-IsSkipped :
    (fuel : ℕ) (lines : List (List ℕ)) (r : Reader) (rest : List ℕ)
    → All IsLine lines
    → IsReady r
    → pending r ≡ wire_lines lines rest
    → length (wire_lines lines rest) < fuel
    → IsSkipped rest (trailer_rounds fuel r)
unfolding trailer_rounds is_trailer_end
trailers-IsSkipped zero lines r rest clean ready same h = absurd (omega arith)
trailers-IsSkipped (suc fuel) [] r rest clean ready same h =
    let line = reads_line r [] rest ready tt (omega arith) same in
    rw (trailer_rounds, line.success, line.reads_text)
      (record { success = refl; remains = line.remains; ready = line.ready })
trailers-IsSkipped (suc fuel) (text ∷ lines) r rest clean ready same h =
    let line = reads_line r text (wire_lines lines rest) ready clean.0.0 clean.0.1 same in
    let more =
      trailers-IsSkipped fuel lines (reader_read_line r).1.1 rest clean.1 line.ready line.remains
        (shorter text _ fuel h) in
    rw
      (
        trailer_rounds,
        line.success,
        line.reads_text,
        if_false (length text == 0) (Code.done, (reader_read_line r).1.1)
            (trailer_rounds fuel (reader_read_line r).1.1) (is_filled text clean.0.2),
      )
      more

module _ (d : Decompressors) where
  round_last :
      (fuel : ℕ) (f : Funnel d) (r : Reader)
      → (let line = reader_read_line r in
          line.0 ≡ Code.done
          → chunk_size line.1.0 ≡ record { negative = false; magnitude = 0 }
          → chunk_rounds d (suc fuel) f r
            ≡ (let t = trailer_rounds (suc fuel) line.1.1 in (t.0, (f, t.1))))
  unfolding chunk_rounds is_negative
  round_last fuel f r read size =
      if_false (not (is_done (reader_read_line r).0)) _ _ (ap (λ t. not (is_done t)) read)
      ∙ if_false (is_negative (chunk_size (reader_read_line r).1.0)) _ _ (ap is_negative size)
      ∙ if_true ((chunk_size (reader_read_line r).1.0).magnitude == 0) _ _
          (ap (λ (t : Long). t.magnitude == 0) size)

  round_chunk :
      (fuel : ℕ) (f : Funnel d) (r : Reader)
      → (let line = reader_read_line r in
          let size = chunk_size line.1.0 in
          let body = reader_read_body d f line.1.1 size.magnitude in
          let end = reader_read_line body.1.1 in
          line.0 ≡ Code.done
          → is_negative size ≡ false
          → (size.magnitude == 0) ≡ false
          → body.0 ≡ Code.done
          → end.0 ≡ Code.done
          → chunk_rounds d (suc fuel) f r ≡ chunk_rounds d fuel body.1.0 end.1.1)
  unfolding chunk_rounds
  round_chunk fuel f r read positive some_data body end =
      if_false (not (is_done (reader_read_line r).0)) _ _ (ap (λ t. not (is_done t)) read)
      ∙ if_false (is_negative (chunk_size (reader_read_line r).1.0)) _ _ positive
      ∙ if_false ((chunk_size (reader_read_line r).1.0).magnitude == 0) _ _ some_data
      ∙ if_false (not (is_done _)) _ _ (ap (λ t. not (is_done t)) body)
      ∙ if_false (not (is_done _)) _ _ (ap (λ t. not (is_done t)) end)

  chunks-IsBodyRead :
      (chunks : List Chunk) (last : Chunk) (trailers : List (List ℕ)) (rest : List ℕ) (fuel : ℕ)
      (f : Funnel d) (r : Reader)
      → All IsDataChunk chunks
      → IsChunk last
      → last.content ≡ []
      → All IsLine trailers
      → KeepsBody d f.sink
      → IsReady r
      → pending r ≡ wire_chunks chunks last trailers rest
      → length (wire_chunks chunks last trailers rest) < fuel
      → IsBodyRead d f (content_of chunks) rest (chunk_rounds d fuel f r)
  unfolding is_negative
  chunks-IsBodyRead chunks last trailers rest zero f r data_chunks ends empty clean keeps ready same
        h =
      absurd (omega arith)
  chunks-IsBodyRead [] last trailers rest (suc fuel) f r data_chunks ends empty clean keeps ready
        same h =
      let line =
        reads_line r (size_line last) (wire_lines trailers rest) ready ends.text ends.short same in
      let size =
        ap chunk_size line.reads_text
        ∙ chunk_size-line last ends
        ∙ ap (λ (t : List ℕ). record { negative = false; magnitude = length t }) empty in
      let skipped =
        trailers-IsSkipped (suc fuel) trailers (reader_read_line r).1.1 rest clean line.ready
          line.remains
          (omega (arith, shorter (size_line last) (wire_lines trailers rest) fuel h)) in
      rw (round_last fuel f r line.success size) (record {
        success = skipped.success;
        extended = IsExtended-refl d f keeps;
        remains = skipped.remains;
        ready = skipped.ready;
      })
  chunks-IsBodyRead (c ∷ cs) last trailers rest (suc fuel) f r data_chunks ends empty clean keeps
        ready same h =
      let behind = wire_chunks cs last trailers rest in
      let line =
        reads_line r (size_line c) (c.content ++ cr ∷ lf ∷ behind) ready data_chunks.0.0.text
          data_chunks.0.0.short same in
      let next = (reader_read_line r).1.1 in
      let size = ap chunk_size line.reads_text ∙ chunk_size-line c data_chunks.0.0 in
      let body =
        subst (λ n. IsBodyRead d f c.content (cr ∷ lf ∷ behind) (reader_read_body d f next n))
          (sym (ap (λ (t : Long). t.magnitude) size))
          (reader_read_body-IsBodyRead d f next c.content (cr ∷ lf ∷ behind) keeps line.ready
            line.remains) in
      let result = reader_read_body d f next (chunk_size (reader_read_line r).1.0).magnitude in
      let end = reads_line result.1.1 [] behind body.ready tt (omega arith) body.remains in
      rw
        (round_chunk fuel f r line.success (ap is_negative size)
          (ap (λ (t : Long). t.magnitude == 0) size ∙ is_filled c.content data_chunks.0.1)
          body.success end.success)
        (append-IsBodyRead d f result.1.0 c.content (content_of cs) rest body.extended (
          chunks-IsBodyRead cs last trailers rest fuel result.1.0 (reader_read_line result.1.1).1.1
            data_chunks.1 ends empty clean body.extended.keeps end.ready end.remains
            (shorter c.content behind fuel
              (omega (arith, shorter (size_line c) (c.content ++ cr ∷ lf ∷ behind) fuel h)))))

  pub read_chunked_body-IsBodyRead :
      (chunks : List Chunk) (last : Chunk) (trailers : List (List ℕ)) (rest : List ℕ) (f : Funnel d)
      (r : Reader)
      → All IsDataChunk chunks
      → IsChunk last
      → last.content ≡ []
      → All IsLine trailers
      → KeepsBody d f.sink
      → IsReady r
      → pending r ≡ wire_chunks chunks last trailers rest
      → IsBodyRead d f (content_of chunks) rest (read_chunked_body d f r)
  unfolding read_chunked_body
  read_chunked_body-IsBodyRead chunks last trailers rest f r data_chunks ends empty clean keeps
        ready same =
      chunks-IsBodyRead chunks last trailers rest (suc (available r)) f r data_chunks ends empty
        clean keeps ready same (omega (arith, ap length same, pending-le r))
