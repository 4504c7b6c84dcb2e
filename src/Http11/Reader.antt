-- ===== src/Http11/Reader.antt =====
-- The buffered reader of src/Http11ResponseHandler.c. What the network answers to the reads of
-- `sessionReadTimed` is a list, given in advance; when it is used up, a read times out.
-- The deadline is left out, as the clock is, and allocations succeed.
pub mod Lines
use http_request_client.Prelude.{
  ℕ, zero, suc, ◌+◌, List, [], ◌∷◌, ◌++◌, none, some, Bool, true, false, ◌||◌, leb, ltb, ◌==◌,
  if◌then◌else◌, length, take, drop, drop_last, get_or,
}
use http_request_client.Http11.Text.{c_string, split_at}

-- `HTTP11_MAX_HEADER_SECTION` and `HTTP11_READ_CHUNK`.
abbrev pub max_header_section : ℕ
max_header_section = 65536

abbrev pub read_chunk : ℕ
read_chunk = 16384

-- The codes 1, 0, -1 and -2; 0 is the end of the input, and no error in `reader -> err`.
pub data Code : Type 0 where
  done : Code
  ended : Code
  failed : Code
  timed_out : Code

-- A result of `sessionReadTimed`: one byte or more, the end, an error or a timeout.
pub data Read : Type 0 where
  bytes : ℕ → List ℕ → Read
  closed : Read
  failed : Read
  timed_out : Read

-- `buf` is its first `pos` bytes, which are consumed, and the unread ones.
pub record Reader : Type 0 where
  pub pos : ℕ
  pub unread : List ℕ
  pub eof : Bool
  pub err : Code
  pub reads : List Read

-- The test `code != 0`.
abbrev pub is_nonzero : Code → Bool
is_nonzero Code.ended = false
is_nonzero Code.done = true
is_nonzero Code.failed = true
is_nonzero Code.timed_out = true

abbrev pub is_done : Code → Bool
is_done Code.done = true
is_done Code.ended = false
is_done Code.failed = false
is_done Code.timed_out = false

-- One read of the network, behind which the buffer is compacted.
unfoldable pub receive_more : Reader → List Read → Reader
receive_more r [] = record r { pos = 0; err = Code.timed_out }
receive_more r (Read.bytes b bs ∷ reads) = record r {
  pos = 0;
  unread = r.unread ++ b ∷ bs;
  reads = reads;
}
receive_more r (Read.closed ∷ reads) = record r { pos = 0; eof = true; reads = reads }
receive_more r (Read.failed ∷ reads) = record r { pos = 0; err = Code.failed; reads = reads }
receive_more r (Read.timed_out ∷ reads) = record r { pos = 0; err = Code.timed_out; reads = reads }

unfoldable pub is_stopped : Reader → Bool
is_stopped r = r.eof || is_nonzero r.err

unfoldable pub reader_fill : Reader → Reader
unfolding is_stopped receive_more
reader_fill r = if is_stopped r then r else receive_more r r.reads

unfoldable pub reader_end_code : Reader → Code
reader_end_code r = if is_nonzero r.err then r.err else Code.ended

abbrev pub lf : ℕ
lf = 10

abbrev pub cr : ℕ
cr = 13

-- A line without the one CR that may end it.
unfoldable pub strip_cr : List ℕ → List ℕ
strip_cr [] = []
strip_cr (x ∷ []) = if x == cr then [] else x ∷ []
strip_cr (x ∷ y ∷ xs) = x ∷ strip_cr (y ∷ xs)

unfoldable pub read_line_rounds : ℕ → Reader → Code × (List ℕ × Reader)
unfolding is_stopped reader_fill reader_end_code strip_cr
read_line_rounds zero r = (Code.failed, ([], r))
read_line_rounds (suc fuel) r =
    let more = read_line_rounds fuel (reader_fill r) in
    elim (split_at lf r.unread) [
      | some (line, rest) ↦ (
        Code.done,
        (c_string (strip_cr line), record r { pos = r.pos + suc (length line); unread = rest }),
      )
      | none ↦
          if is_stopped r
          then (reader_end_code r, ([], r))
          else if leb max_header_section (r.pos + length r.unread)
          then (Code.failed, ([], r))
          else more
    ]

-- Every round but the last reads from the network, and a read behind the last answer stops it.
unfoldable pub reader_read_line : Reader → Code × (List ℕ × Reader)
unfolding read_line_rounds
reader_read_line r = read_line_rounds (suc (suc (length r.reads))) r
