-- ===== src/Http11/Reader/Lines.antt =====
-- Reading a line, however the network cuts the bytes.
use http_request_client.Prelude.{
  ℕ, zero, suc, ◌+◌, ◌≤◌, ◌<◌, ◌≡◌, refl, sym, ap, ◌∙◌, inl, inr, ◌⊎◌, List, [], ◌∷◌, ◌++◌,
  append_assoc, Option, none, some, false, ◌==◌, length, length-append, lt→leb, if_false,
  Bool-cases, Option-cases, arith,
}
use mathlib.Core.Path.{subst}
use http_request_client.Http11.Text.{c_string, split_at}
use http_request_client.Http11.Reader.{
  Code, Read, Reader, reader_fill, receive_more, is_stopped, read_line_rounds, reader_read_line,
  strip_cr, lf, cr, read_chunk, max_header_section,
}

-- What still arrives before the first read that is no data.
abbrev pub arrives : List Read → List ℕ
arrives [] = []
arrives (Read.bytes b bs ∷ reads) = (b ∷ bs) ++ arrives reads
arrives (Read.closed ∷ reads) = []
arrives (Read.failed ∷ reads) = []
arrives (Read.timed_out ∷ reads) = []

-- The bytes that the reader has still to hand out.
abbrev pub pending : Reader → List ℕ
pending r = r.unread ++ arrives r.reads

-- A read fills at most the buffer that it is given.
abbrev pub IsBounded : List Read → Type 0
IsBounded [] = Unit
IsBounded (Read.bytes b bs ∷ reads) = (suc (length bs) ≤ read_chunk) × IsBounded reads
IsBounded (Read.closed ∷ reads) = IsBounded reads
IsBounded (Read.failed ∷ reads) = IsBounded reads
IsBounded (Read.timed_out ∷ reads) = IsBounded reads

-- A reader that has met no end and no error, with at most two reads in its buffer.
pub record IsReady (r : Reader) : Type 0 where
  pub is_open : r.eof ≡ false
  pub is_fine : r.err ≡ Code.ended
  pub bounded : IsBounded r.reads
  pub small : r.pos + length r.unread ≤ read_chunk + read_chunk

-- The pieces with `front` before the first of them.
abbrev pub extend : List ℕ → Option (List ℕ × List ℕ) → Option (List ℕ × List ℕ)
extend front none = none
extend front (some (before, behind)) = some (front ++ before, behind)

-- A search that found nothing in `front` goes on behind it.
abbrev pub resume : ℕ → List ℕ → List ℕ → Option (List ℕ × List ℕ) → Option (List ℕ × List ℕ)
resume c front ys none = extend front (split_at c ys)
resume c front ys (some (before, behind)) = some (before, behind ++ ys)

extend-nil : (o : Option (List ℕ × List ℕ)) → o ≡ extend [] o
extend-nil none = refl
extend-nil (some p) = refl

extend-cons :
    (x : ℕ) (front : List ℕ) (o : Option (List ℕ × List ℕ))
    → (elim (extend front o) [ none ↦ none | some (before, behind) ↦ some (x ∷ before, behind) ])
      ≡ extend (x ∷ front) o
extend-cons x front none = refl
extend-cons x front (some p) = refl

resume-cons :
    (c x : ℕ) (front ys : List ℕ) (o : Option (List ℕ × List ℕ))
    → (elim (resume c front ys o) [
      | none ↦ none
      | some (before, behind) ↦ some (x ∷ before, behind)
    ])
      ≡ resume c
          (x ∷ front)
          ys
          (elim o [ none ↦ none | some (before, behind) ↦ some (x ∷ before, behind) ])
resume-cons c x front ys none = extend-cons x front (split_at c ys)
resume-cons c x front ys (some p) = refl

pub split_at-append :
    (c : ℕ) (xs ys : List ℕ) → split_at c (xs ++ ys) ≡ resume c xs ys (split_at c xs)
unfolding split_at
split_at-append c [] ys = extend-nil (split_at c ys)
split_at-append c (x ∷ xs) ys = elim (Bool-cases (x == c)) [
  | inl same ↦ rw same refl
  | inr other ↦ rw (other, split_at-append c xs ys) (resume-cons c x xs ys (split_at c xs))
]

-- What reading a line gives, with `rest` behind the line's LF.
pub record IsLineRead (text rest : List ℕ) (result : Code × (List ℕ × Reader)) : Type 0 where
  pub success : result.0 ≡ Code.done
  pub reads_text : result.1.0 ≡ text
  pub remains : pending result.1.1 ≡ rest
  pub ready : IsReady result.1.1

extend-some_le :
    (front line rest : List ℕ) (o : Option (List ℕ × List ℕ))
    → extend front o ≡ some (line, rest)
    → length front ≤ length line
extend-some_le front line rest none h = cc
extend-some_le front line rest (some (before, behind)) h =
    let same : front ++ before ≡ line = cc in
    omega (arith, length-append front before, ap length same)

-- The rounds, by what the buffer holds.
abbrev taken : Reader → List ℕ → List ℕ → Reader
taken r line rest = record r { pos = r.pos + suc (length line); unread = rest }

pub round_found :
    (fuel : ℕ) (r : Reader) (line rest : List ℕ)
    → split_at lf r.unread ≡ some (line, rest)
    → read_line_rounds (suc fuel) r ≡ (Code.done, (c_string (strip_cr line), taken r line rest))
unfolding read_line_rounds
round_found fuel r line rest h = rw (h, read_line_rounds) refl

pub round_more :
    (fuel : ℕ) (r : Reader)
    → split_at lf r.unread ≡ none
    → is_stopped r ≡ false
    → r.pos + length r.unread < max_header_section
    → read_line_rounds (suc fuel) r ≡ read_line_rounds fuel (reader_fill r)
unfolding read_line_rounds
round_more fuel r h runs small =
    rw (h, read_line_rounds)
      (if_false (is_stopped r) _ _ runs ∙ if_false _ _ _ (lt→leb max_header_section _ small))

-- A reader that has met no end and no error.
abbrev pub open_reader : ℕ → List ℕ → List Read → Reader
open_reader pos unread reads = record {
  pos = pos;
  unread = unread;
  eof = false;
  err = Code.ended;
  reads = reads;
}

abbrev measure : ℕ → Option (List ℕ × List ℕ) → ℕ
measure n none = n
measure n (some (before, behind)) = length before + suc (length behind)

split_at-measure : (c : ℕ) (xs : List ℕ) → measure (length xs) (split_at c xs) ≡ length xs
unfolding split_at
split_at-measure c [] = refl
split_at-measure c (x ∷ xs) = ground (arith, split_at-measure c xs)

pub split_at-length :
    (c : ℕ) (xs before behind : List ℕ)
    → split_at c xs ≡ some (before, behind)
    → length before + suc (length behind) ≡ length xs
split_at-length c xs before behind h = ap (measure (length xs)) (sym h) ∙ split_at-measure c xs

found-IsLineRead :
    (reads : List Read) (fuel pos : ℕ) (unread before behind line rest : List ℕ)
    → IsBounded reads
    → pos + length unread ≤ read_chunk + read_chunk
    → split_at lf unread ≡ some (before, behind)
    → before ≡ line
    → behind ++ arrives reads ≡ rest
    → IsLineRead
        (c_string (strip_cr line))
        rest
        (read_line_rounds (suc fuel) (open_reader pos unread reads))
found-IsLineRead reads fuel pos unread before behind line rest bounded small here same remains =
    rw (round_found fuel (open_reader pos unread reads) before behind here) (record {
      success = refl;
      reads_text = ap (λ (t : List ℕ). c_string (strip_cr t)) same;
      remains = remains;
      ready = record {
        is_open = refl;
        is_fine = refl;
        bounded = bounded;
        small = omega (arith, split_at-length lf unread before behind here);
      };
    })

some_parts :
    {before behind line rest : List ℕ}
    → (let p : Option (List ℕ × List ℕ) = some (before, behind) in p) ≡ some (line, rest)
    → (before ≡ line) × (behind ≡ rest)
some_parts h = (cc, cc)

-- Either the line is in the buffer, or all of the buffer belongs to it.
in_buffer :
    (reads : List Read) (fuel pos : ℕ) (unread line rest : List ℕ)
    → IsBounded reads
    → pos + length unread ≤ read_chunk + read_chunk
    → split_at lf (unread ++ arrives reads) ≡ some (line, rest)
    → IsLineRead
        (c_string (strip_cr line))
        rest
        (read_line_rounds (suc fuel) (open_reader pos unread reads))
      ⊎ ((split_at lf unread ≡ none)
          × (extend unread (split_at lf (arrives reads)) ≡ some (line, rest)))
in_buffer reads fuel pos unread line rest bounded small found =
    let whole = sym (split_at-append lf unread (arrives reads)) ∙ found in
    elim (Option-cases (split_at lf unread)) [
      | inl nothing ↦ inr (nothing, ap (resume lf unread (arrives reads)) (sym nothing) ∙ whole)
      | inr (piece, here) ↦
          let parts = some_parts (ap (resume lf unread (arrives reads)) (sym here) ∙ whole) in
          inl (
            found-IsLineRead reads fuel pos unread piece.0 piece.1 line rest bounded small here
              parts.0 parts.1)
    ]

rounds-IsLineRead :
    (reads : List Read) (fuel pos : ℕ) (unread line rest : List ℕ)
    → length reads ≤ fuel
    → IsBounded reads
    → pos + length unread ≤ read_chunk + read_chunk
    → split_at lf (unread ++ arrives reads) ≡ some (line, rest)
    → length line ≤ read_chunk
    → IsLineRead
        (c_string (strip_cr line))
        rest
        (read_line_rounds (suc fuel) (open_reader pos unread reads))
unfolding reader_fill receive_more is_stopped split_at
rounds-IsLineRead [] fuel pos unread line rest h bounded small found short =
    elim (in_buffer [] fuel pos unread line rest bounded small found) [
      | inl here ↦ here
      | inr (nothing, behind) ↦ absurd cc
    ]
rounds-IsLineRead (Read.bytes b bs ∷ reads) (suc fuel) pos unread line rest h bounded small found
      short =
    elim (in_buffer (Read.bytes b bs ∷ reads) (suc fuel) pos unread line rest bounded small found) [
      | inl here ↦ here
      | inr (nothing, behind) ↦
          let le =
            extend-some_le unread line rest (split_at lf ((b ∷ bs) ++ arrives reads)) behind in
          rw
            (round_more (suc fuel) (open_reader pos unread (Read.bytes b bs ∷ reads)) nothing refl
              (omega arith))
            (rounds-IsLineRead reads fuel 0 (unread ++ b ∷ bs) line rest (omega arith) bounded.1
              (omega (arith, length-append unread (b ∷ bs), bounded.0))
              (ap (split_at lf) (append_assoc unread (b ∷ bs) (arrives reads)) ∙ found) short)
    ]
rounds-IsLineRead (Read.bytes b bs ∷ reads) zero pos unread line rest h bounded small found short =
    absurd (omega arith)
rounds-IsLineRead (Read.closed ∷ reads) fuel pos unread line rest h bounded small found short =
    elim (in_buffer (Read.closed ∷ reads) fuel pos unread line rest bounded small found) [
      | inl here ↦ here
      | inr (nothing, behind) ↦ absurd cc
    ]
rounds-IsLineRead (Read.failed ∷ reads) fuel pos unread line rest h bounded small found short =
    elim (in_buffer (Read.failed ∷ reads) fuel pos unread line rest bounded small found) [
      | inl here ↦ here
      | inr (nothing, behind) ↦ absurd cc
    ]
rounds-IsLineRead (Read.timed_out ∷ reads) fuel pos unread line rest h bounded small found short =
    elim (in_buffer (Read.timed_out ∷ reads) fuel pos unread line rest bounded small found) [
      | inl here ↦ here
      | inr (nothing, behind) ↦ absurd cc
    ]

pub read_line-IsLineRead :
    (r : Reader) (line rest : List ℕ)
    → IsReady r
    → split_at lf (pending r) ≡ some (line, rest)
    → length line ≤ read_chunk
    → IsLineRead (c_string (strip_cr line)) rest (reader_read_line r)
unfolding reader_read_line
read_line-IsLineRead r line rest ready found short =
    let same : open_reader r.pos r.unread r.reads ≡ r = cc (ready.is_open, ready.is_fine) in
    subst
      (λ t.
        IsLineRead (c_string (strip_cr line)) rest
          (read_line_rounds (suc (suc (length t.reads))) t))
      same
      (rounds-IsLineRead r.reads (suc (length r.reads)) r.pos r.unread line rest (omega arith)
        ready.bounded ready.small found short)

-- The text of a line: no LF, and no NUL, which would end a C string.
abbrev pub IsText : List ℕ → Type 0
IsText [] = Unit
IsText (c ∷ cs) = ((c == lf) ≡ false) × ((c == 0) ≡ false) × IsText cs

strip_cr-line : (text : List ℕ) → strip_cr (text ++ cr ∷ []) ≡ text
unfolding strip_cr
strip_cr-line [] = refl
strip_cr-line (c ∷ []) = refl
strip_cr-line (c ∷ e ∷ cs) = ap (◌∷◌ c) (strip_cr-line (e ∷ cs))

c_string-text : (text : List ℕ) → IsText text → c_string text ≡ text
unfolding c_string
c_string-text [] h = refl
c_string-text (c ∷ cs) h = if_false (c == 0) _ _ h.1 ∙ ap (◌∷◌ c) (c_string-text cs h.2)

split_at-line :
    (text rest : List ℕ)
    → IsText text
    → split_at lf (text ++ cr ∷ lf ∷ rest) ≡ some (text ++ cr ∷ [], rest)
unfolding split_at
split_at-line [] rest h = refl
split_at-line (c ∷ cs) rest h = rw (h.0, split_at-line cs rest h.2) refl

-- A line that ends in CR and LF.
pub reads_line :
    (r : Reader) (text rest : List ℕ)
    → IsReady r
    → IsText text
    → length text < read_chunk
    → pending r ≡ text ++ cr ∷ lf ∷ rest
    → IsLineRead text rest (reader_read_line r)
reads_line r text rest ready clean short whole =
    let same = ap c_string (strip_cr-line text) ∙ c_string-text text clean in
    subst (λ t. IsLineRead t rest (reader_read_line r)) same
      (read_line-IsLineRead r (text ++ cr ∷ []) rest ready
        (ap (split_at lf) whole ∙ split_at-line text rest clean)
        (omega (arith, length-append text (cr ∷ []))))

-- Lines as they are sent, with the empty one that ends them and what follows.
abbrev pub wire_lines : List (List ℕ) → List ℕ → List ℕ
wire_lines [] rest = cr ∷ lf ∷ rest
wire_lines (line ∷ lines) rest = line ++ cr ∷ lf ∷ wire_lines lines rest

-- A line that can stand before the empty one.
abbrev pub IsLine : List ℕ → Type 0
IsLine line = IsText line × (length line < read_chunk) × (0 < length line)
