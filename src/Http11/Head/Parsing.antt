-- ===== src/Http11/Head/Parsing.antt =====
-- The head of a response, however the network cuts it.
use http_request_client.Prelude.{
  ℕ, zero, suc, ◌+◌, ◌-◌, ◌*◌, ◌≤◌, ◌<◌, ◌≡◌, refl, sym, ap, ap₂, ◌∙◌, List, [], ◌∷◌, ◌++◌, Option,
  some, true, false, not, ◌==◌, leb, length, All, arith, if_true, if_false, length-append,
  append_assoc, append-nil, lt→leb, map, drop,
}
use mathlib.Core.Path.{subst}
use http_request_client.Prelude.Text.{codes, is_space}
use http_request_client.Hpack.Block.{ResponseHeader, response_headers_max_size}
use http_request_client.Response.Stream.{Decompressors, Stream}
use http_request_client.Http11.Text.{is_space_char, skip_spaces}
use http_request_client.Http11.Text.Trimming.{IsBare, Lacks, split_at-Lacks, trim-bare, trim-space}
use http_request_client.Http11.Reader.{
  is_done, Code, Read, Reader, cr, lf, read_chunk, reader_read_line,
}
use http_request_client.Http11.Reader.Lines.{
  IsLine, IsReady, IsText, arrives, pending, reads_line, wire_lines,
}
use http_request_client.Http11.Head.{
  add_stream_header, available, copy_status_code, digits_value, header_rounds, is_digit,
  parse_header_line, parse_status_line, read_bytes, read_header_section, read_response_head,
  skip_word,
}

arrives-le : (reads : List Read) → length (arrives reads) ≤ read_bytes reads
arrives-le [] = omega arith
arrives-le (Read.bytes b bs ∷ reads) =
    omega (arith, length-append (b ∷ bs) (arrives reads), arrives-le reads)
arrives-le (Read.closed ∷ reads) = omega arith
arrives-le (Read.failed ∷ reads) = omega arith
arrives-le (Read.timed_out ∷ reads) = omega arith

-- The measure by which the loops over lines have their rounds.
pub pending-le : (r : Reader) → length (pending r) ≤ available r
pending-le r = omega (arith, length-append r.unread (arrives r.reads), arrives-le r.reads)

-- A header field as it is sent, without white space at the ends of its name and value.
abbrev pub field_line : ResponseHeader → List ℕ
field_line h = h.name ++ b':' ∷ b' ' ∷ h.value

abbrev pub field_lines : List ResponseHeader → List (List ℕ)
field_lines hs = map field_line hs

pub record IsField (h : ResponseHeader) : Type 0 where
  pub text : IsText (field_line h)
  pub short : length (field_line h) < read_chunk
  pub name_bare : IsBare h.name
  pub value_bare : IsBare h.value
  pub colonless : Lacks b':' h.name

parse-field :
    (headers : List ResponseHeader) (h : ResponseHeader)
    → IsField h
    → length headers < response_headers_max_size
    → parse_header_line headers (field_line h) ≡ headers ++ h ∷ []
unfolding parse_header_line add_stream_header
parse-field headers h field room =
    rw
      (
        parse_header_line,
        split_at-Lacks b':' h.name (b' ' ∷ h.value) field.colonless,
        trim-bare h.name field.name_bare,
        trim-space h.value field.value_bare,
      )
      (if_false (leb response_headers_max_size (length headers)) _ _
        (lt→leb 64 (length headers) room))

record IsHeadRead (headers : List ResponseHeader) (rest : List ℕ)
    (result : Code × (List ResponseHeader × Reader)) : Type 0 where
  success : result.0 ≡ Code.done
  collected : result.1.0 ≡ headers
  remains : pending result.1.1 ≡ rest
  ready : IsReady result.1.1

field-IsLine : (h : ResponseHeader) → IsField h → IsLine (field_line h)
field-IsLine h field =
    (field.text, field.short, omega (arith, length-append h.name (b':' ∷ b' ' ∷ h.value)))

pub is_filled : (text : List ℕ) → 0 < length text → (length text == 0) ≡ false
is_filled text h = ground arith

round_line :
    (fuel : ℕ) (headers : List ResponseHeader) (r : Reader)
    → (let line = reader_read_line r in
        line.0 ≡ Code.done
        → (length line.1.0 == 0) ≡ false
        → header_rounds (suc fuel) headers r
          ≡ header_rounds fuel (parse_header_line headers line.1.0) line.1.1)
unfolding header_rounds
round_line fuel headers r read filled =
    if_false (not (is_done (reader_read_line r).0)) _ _ (ap (λ t. not (is_done t)) read)
    ∙ if_false (length (reader_read_line r).1.0 == 0) _ _ filled

rounds-IsHeadRead :
    (fuel : ℕ) (headers fields : List ResponseHeader) (r : Reader) (rest : List ℕ)
    → All IsField fields
    → length headers + length fields ≤ response_headers_max_size
    → IsReady r
    → pending r ≡ wire_lines (field_lines fields) rest
    → length (wire_lines (field_lines fields) rest) < fuel
    → IsHeadRead (headers ++ fields) rest (header_rounds fuel headers r)
unfolding header_rounds
rounds-IsHeadRead zero headers fields r rest clean room ready same h = absurd (omega arith)
rounds-IsHeadRead (suc fuel) headers [] r rest clean room ready same h =
    let line = reads_line r [] rest ready tt (omega arith) same in
    rw (header_rounds, line.success, line.reads_text)
      (record {
        success = refl;
        collected = sym (append-nil headers);
        remains = line.remains;
        ready = line.ready;
      })
rounds-IsHeadRead (suc fuel) headers (field ∷ fields) r rest clean room ready same h =
    let proper = field-IsLine field clean.0 in
    let line =
      reads_line r (field_line field) (wire_lines (field_lines fields) rest) ready proper.0 proper.1
        same in
    let next = (reader_read_line r).1.1 in
    let more =
      rounds-IsHeadRead fuel (headers ++ field ∷ []) fields next rest clean.1
        (omega (arith, length-append headers (field ∷ []))) line.ready line.remains
        (omega (
          arith,
          length-append (field_line field) (cr ∷ lf ∷ wire_lines (field_lines fields) rest),
        )) in
    rw
      (
        round_line fuel headers r line.success (
            ap (λ (t : List ℕ). length t == 0) line.reads_text
            ∙ is_filled (field_line field) proper.2),
        line.reads_text,
        parse-field headers field clean.0 (omega arith),
        ← append_assoc headers (field ∷ []) fields,
      )
      more

pub record StatusLine : Type 0 where
  pub minor : List ℕ
  pub hundreds : ℕ
  pub tens : ℕ
  pub ones : ℕ
  pub reason : List ℕ

abbrev pub status_code : StatusLine → List ℕ
status_code s = s.hundreds ∷ s.tens ∷ s.ones ∷ []

abbrev pub status_line : StatusLine → List ℕ
status_line s = codes "HTTP/1." ++ (s.minor ++ b' ' ∷ s.hundreds ∷ s.tens ∷ s.ones ∷ s.reason)

abbrev pub IsDigit : ℕ → Type 0
IsDigit c = is_digit c ≡ true

pub record IsStatusLine (s : StatusLine) : Type 0 where
  pub text : IsText (status_line s)
  pub short : length (status_line s) < read_chunk
  pub minor_word : All (λ c. is_space_char c ≡ false) s.minor
  pub is_number : All IsDigit (status_code s)

-- The number that the three digits stand for.
abbrev pub status_number : StatusLine → ℕ
status_number s = (s.hundreds - b'0') * 100 + (s.tens - b'0') * 10 + (s.ones - b'0')

skip_word-word :
    (word rest : List ℕ)
    → All (λ c. is_space_char c ≡ false) word
    → skip_word (word ++ b' ' ∷ rest) ≡ b' ' ∷ rest
unfolding skip_word
skip_word-word [] rest h = refl
skip_word-word (c ∷ cs) rest h = if_false (is_space_char c) _ _ h.0 ∙ skip_word-word cs rest h.1

digit-is_space_char : (c : ℕ) → IsDigit c → is_space_char c ≡ false
unfolding is_space_char is_space
digit-is_space_char c h = ground arith

code-parses :
    (s : StatusLine)
    → IsStatusLine s
    → copy_status_code 3 (skip_spaces (skip_word (drop 7 (status_line s)))) ≡ status_code s
unfolding copy_status_code skip_spaces
code-parses s h =
    let number = h.is_number in
    ap (λ t. copy_status_code 3 (skip_spaces t)) (skip_word-word s.minor _ h.minor_word)
    ∙ ap (copy_status_code 3)
        (if_false (is_space_char s.hundreds) _ _ (digit-is_space_char s.hundreds number.0))
    ∙ rw (number.0, number.1.0, number.1.1.0) refl

status_value : (s : StatusLine) → digits_value 0 (status_code s) ≡ status_number s
unfolding digits_value
status_value s = omega arith

parse-status :
    (headers : List ResponseHeader) (s : StatusLine)
    → IsStatusLine s
    → length headers < response_headers_max_size
    → parse_status_line headers (status_line s) ≡ (
      some (status_number s),
      headers ++ (record { name = codes ":status"; value = status_code s }) ∷ [],
    )
unfolding parse_status_line add_stream_header
parse-status headers s h room =
    rw (parse_status_line, code-parses s h)
      (ap₂ (λ n hs. (some n, hs)) (status_value s)
        (if_false (leb response_headers_max_size (length headers)) _ _
          (lt→leb 64 (length headers) room)))

-- A head is read: the status, the headers with ":status", and `rest` behind them.
pub record IsReceived (number : ℕ) (headers : List ResponseHeader) (rest : List ℕ)
    (d : Decompressors) (stream : Stream d) (result : Option ℕ × (Stream d × Reader)) : Type 0 where
  pub status : result.0 ≡ some number
  pub stream_is : result.1.0 ≡ record stream { headers = headers }
  pub remains : pending result.1.1 ≡ rest
  pub ready : IsReady result.1.1

abbrev pub status_header : StatusLine → ResponseHeader
status_header s = record { name = codes ":status"; value = status_code s }

head_good :
    (d : Decompressors) (stream : Stream d) (r : Reader) (number : ℕ)
    → (let line = reader_read_line r in
        let parsed = parse_status_line stream.headers line.1.0 in
        let section = read_header_section parsed.1 line.1.1 in
        line.0 ≡ Code.done
        → parsed.0 ≡ some number
        → section.0 ≡ Code.done
        → read_response_head d stream r
          ≡ (some number, (record stream { headers = section.1.0 }, section.1.1)))
unfolding read_response_head
head_good d stream r number read parsed done =
    if_false (not (is_done (reader_read_line r).0)) _ _ (ap (λ t. not (is_done t)) read)
    ∙ rw parsed (if_true (is_done _) _ _ (ap is_done done))

pub read_response_head-IsReceived :
    (d : Decompressors) (stream : Stream d) (r : Reader) (s : StatusLine)
    (fields : List ResponseHeader) (rest : List ℕ)
    → IsStatusLine s
    → All IsField fields
    → stream.headers ≡ []
    → 1 + length fields ≤ response_headers_max_size
    → IsReady r
    → pending r ≡ wire_lines (status_line s ∷ field_lines fields) rest
    → IsReceived
        (status_number s)
        (status_header s ∷ fields)
        rest
        d
        stream
        (read_response_head d stream r)
unfolding read_header_section
read_response_head-IsReceived d stream r s fields rest proper clean fresh room ready same =
    let line =
      reads_line r (status_line s) (wire_lines (field_lines fields) rest) ready proper.text
        proper.short same in
    let next = (reader_read_line r).1.1 in
    let status =
      ap₂ parse_status_line fresh line.reads_text ∙ parse-status [] s proper (omega arith) in
    let head =
      rounds-IsHeadRead (suc (available next)) (status_header s ∷ []) fields next rest clean
        (omega arith) line.ready line.remains
        (omega (arith, ap length line.remains, pending-le next)) in
    let section =
      subst (λ hs. IsHeadRead (status_header s ∷ fields) rest (read_header_section hs next))
        (sym (ap (λ (t : Option ℕ × List ResponseHeader). t.1) status)) head in
    rw
      (head_good d stream r (status_number s) line.success
        (ap (λ (t : Option ℕ × List ResponseHeader). t.0) status) section.success)
      (record {
        status = refl;
        stream_is = ap (λ hs. record stream { headers = hs }) section.collected;
        remains = section.remains;
        ready = section.ready;
      })
