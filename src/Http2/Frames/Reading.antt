-- ===== src/Http2/Frames/Reading.antt =====
-- The frame parser of readerLoop, over one read and over several.
use http_request_client.Prelude.{
  ℕ, zero, suc, ◌+◌, ◌≤◌, ◌<◌, ◌≡◌, ◌⊎◌, refl, sym, ap, ap₂, ◌∙◌, inl, inr, List, [], ◌∷◌, ◌++◌,
  append_assoc, append-nil, arith, ltb, Bool-cases, length, get_or, take, drop, length-append,
  length-drop, drop-append, take-append, All, ◌^◌, get_or-append, take-append_le, drop-append_le,
  ltb→lt, le→ltb, lt→ltb,
}
use http_request_client.Http2.Frames.{
  Frame, bytes_24, bytes_31, read_24, read_frame, split_frames, read_bytes, read_all,
}

-- The buffer holds the whole of its first frame.
abbrev pub IsComplete : List ℕ → Type 0
IsComplete acc = 9 + read_24 acc 0 ≤ length acc

-- One round of the parser.
split_step :
    (fuel : ℕ) (acc : List ℕ)
    → IsComplete acc
    → split_frames (suc fuel) acc ≡ (
      read_frame acc ∷ (split_frames fuel (drop (9 + read_24 acc 0) acc)).0,
      (split_frames fuel (drop (9 + read_24 acc 0) acc)).1,
    )
unfolding split_frames
split_step fuel acc h =
    rw (le→ltb (length acc) 9 (omega arith), le→ltb (length acc) (9 + read_24 acc 0) h) refl

split_stop :
    (fuel : ℕ) (acc : List ℕ) → length acc < 9 + read_24 acc 0 → split_frames fuel acc ≡ ([], acc)
unfolding split_frames
split_stop zero acc h = refl
split_stop (suc fuel) acc h = elim (Bool-cases (ltb (length acc) 9)) [
  | inl short ↦ rw short refl
  | inr long ↦ rw (long, lt→ltb (length acc) (9 + read_24 acc 0) h) refl
]

IsComplete-cases : (acc : List ℕ) → IsComplete acc ⊎ (length acc < 9 + read_24 acc 0)
IsComplete-cases acc = elim (Bool-cases (ltb (length acc) (9 + read_24 acc 0))) [
  | inl short ↦ inr (ltb→lt _ _ short)
  | inr long ↦ inl (ground arith)
]

-- As much fuel as there are bytes is enough.
split_enough :
    (fuel fuel' : ℕ) (acc : List ℕ)
    → length acc ≤ fuel
    → length acc ≤ fuel'
    → split_frames fuel acc ≡ split_frames fuel' acc
split_enough zero fuel' acc h h' =
    split_stop zero acc (omega arith) ∙ sym (split_stop fuel' acc (omega arith))
split_enough (suc fuel) zero acc h h' =
    split_stop (suc fuel) acc (omega arith) ∙ sym (split_stop zero acc (omega arith))
split_enough (suc fuel) (suc fuel') acc h h' = elim (IsComplete-cases acc) [
  | inl whole ↦
      let rest = drop (9 + read_24 acc 0) acc in
      let size = length-drop (9 + read_24 acc 0) acc in
      let same = split_enough fuel fuel' rest (omega arith) (omega arith) in
      split_step fuel acc whole
      ∙ ap (λ t. (read_frame acc ∷ t.0, t.1)) same
      ∙ sym (split_step fuel' acc whole)
  | inr part ↦ split_stop (suc fuel) acc part ∙ sym (split_stop (suc fuel') acc part)
]

-- The parser on a whole buffer.
abbrev split : List ℕ → List Frame × List ℕ
split acc = split_frames (length acc) acc

abbrev after_first : List ℕ → List ℕ
after_first acc = drop (9 + read_24 acc 0) acc

split-IsComplete :
    (acc : List ℕ)
    → IsComplete acc
    → split acc ≡ (read_frame acc ∷ (split (after_first acc)).0, (split (after_first acc)).1)
split-IsComplete acc h =
    let size = length-drop (9 + read_24 acc 0) acc in
    split_enough (length acc) (suc (length acc)) acc (omega arith) (omega arith)
    ∙ split_step (length acc) acc h
    ∙ ap (λ t. (read_frame acc ∷ t.0, t.1))
        (split_enough (length acc) (length (after_first acc)) (after_first acc) (omega arith)
          (omega arith))

-- More bytes do not change a complete frame.
module _ (acc more : List ℕ) (whole : IsComplete acc) where
  same_byte : (i : ℕ) → i < 9 → get_or (acc ++ more) i 0 ≡ get_or acc i 0
  same_byte i h = get_or-append acc more i 0 (omega arith)

  same_size : read_24 (acc ++ more) 0 ≡ read_24 acc 0
  same_size =
      rw (same_byte 0 (omega arith), same_byte 1 (omega arith), same_byte 2 (omega arith)) refl

  still-IsComplete : IsComplete (acc ++ more)
  still-IsComplete = omega (arith, same_size, length-append acc more)

  same_payload :
      take (read_24 (acc ++ more) 0) (drop 9 (acc ++ more)) ≡ take (read_24 acc 0) (drop 9 acc)
  same_payload =
      ap (λ (n : ℕ). take n (drop 9 (acc ++ more))) same_size
      ∙ ap (take (read_24 acc 0)) (drop-append_le acc more 9 (omega arith))
      ∙ take-append_le (drop 9 acc) more (read_24 acc 0) (omega (arith, length-drop 9 acc))

  same_frame : read_frame (acc ++ more) ≡ read_frame acc
  same_frame =
      ap (λ t. record (read_frame (acc ++ more)) { payload = t }) same_payload
      ∙ rw
          (
            same_byte 3 (omega arith),
            same_byte 4 (omega arith),
            same_byte 5 (omega arith),
            same_byte 6 (omega arith),
            same_byte 7 (omega arith),
            same_byte 8 (omega arith),
          )
          refl

  same_rest : after_first (acc ++ more) ≡ after_first acc ++ more
  same_rest =
      ap (λ (n : ℕ). drop (9 + n) (acc ++ more)) same_size
      ∙ drop-append_le acc more (9 + read_24 acc 0) whole

abbrev cons : Frame → List Frame × List ℕ → List Frame × List ℕ
cons f p = (f ∷ p.0, p.1)

-- What the parser makes of a result and more bytes.
abbrev join : List ℕ → List Frame × List ℕ → List Frame × List ℕ
join more p = (p.0 ++ (split (p.1 ++ more)).0, (split (p.1 ++ more)).1)

-- The frames of a buffer that grows: first those of its front, then those of what was left with the
-- new bytes.
split-append :
    (size : ℕ) (acc more : List ℕ) → length acc ≤ size → split (acc ++ more) ≡ join more (split acc)
split-append zero acc more h = rw (split_stop (length acc) acc (omega arith)) refl
split-append (suc size) acc more h = elim (IsComplete-cases acc) [
  | inl whole ↦
      let size_left = length-drop (9 + read_24 acc 0) acc in
      split-IsComplete (acc ++ more) (still-IsComplete acc more whole)
      ∙ ap₂ (λ f r. cons f (split r)) (same_frame acc more whole) (same_rest acc more whole)
      ∙ ap (cons (read_frame acc)) (split-append size (after_first acc) more (omega arith))
      ∙ sym (ap (join more) (split-IsComplete acc whole))
  | inr part ↦ rw (split_stop (length acc) acc part) refl
]

-- What the parser leaves is not a whole frame.
split_rest :
    (size : ℕ) (acc : List ℕ)
    → length acc ≤ size
    → length (split acc).1 < 9 + read_24 (split acc).1 0
split_rest zero acc h = rw (split_stop (length acc) acc (omega arith)) (omega arith)
split_rest (suc size) acc h = elim (IsComplete-cases acc) [
  | inl whole ↦
      let size_left = length-drop (9 + read_24 acc 0) acc in
      rw (ap (λ t. t.1) (split-IsComplete acc whole))
        (split_rest size (after_first acc) (omega arith))
  | inr part ↦ rw (ap (λ t. t.1) (split_stop (length acc) acc part)) part
]

abbrev pub concat : List (List ℕ) → List ℕ
concat [] = []
concat (buffer ∷ buffers) = buffer ++ concat buffers

read_all-concat :
    (acc : List ℕ) (buffers : List (List ℕ))
    → length acc < 9 + read_24 acc 0
    → read_all acc buffers ≡ split (acc ++ concat buffers)
unfolding read_all read_bytes
read_all-concat acc [] part = sym (ap split (append-nil acc) ∙ split_stop (length acc) acc part)
read_all-concat acc (buffer ∷ buffers) part =
    let now = split (acc ++ buffer) in
    ap (λ t. (now.0 ++ t.0, t.1))
      (read_all-concat now.1 buffers
        (split_rest (length (acc ++ buffer)) (acc ++ buffer) (omega arith)))
    ∙ sym (split-append (length (acc ++ buffer)) (acc ++ buffer) (concat buffers) (omega arith))
    ∙ ap split (append_assoc acc buffer (concat buffers))

-- The frames that a connection delivers, and the bytes it keeps, do not depend on how the reads cut
-- the stream: they are those of a single read of all the bytes.
pub read_all_cuts : (buffers : List (List ℕ)) → read_all [] buffers ≡ read_bytes [] (concat buffers)
unfolding read_bytes
read_all_cuts buffers = read_all-concat [] buffers (omega arith)

-- The wire form of a frame (RFC 9113 4.1), with a reserved bit of zero.
abbrev pub wire : Frame → List ℕ
wire f =
    bytes_24 (length f.payload) ++ (f.frame_type ∷ f.flags ∷ (bytes_31 f.stream_id ++ f.payload))

abbrev pub wires : List Frame → List ℕ
wires [] = []
wires (f ∷ fs) = wire f ++ wires fs

-- The fields of a frame fit their widths.
pub record IsFrame (f : Frame) : Type 0 where
  pub id_fits : f.stream_id < 2 ^ 31
  pub size_fits : length f.payload < 2 ^ 24

module _ (f : Frame) (ok : IsFrame f) (rest : List ℕ) where
  wire_size : read_24 (wire f ++ rest) 0 ≡ length f.payload
  wire_size = omega (arith, ok.size_fits)

  wire-IsComplete : IsComplete (wire f ++ rest)
  wire-IsComplete = omega (arith, wire_size, length-append f.payload rest)

  wire_frame : read_frame (wire f ++ rest) ≡ f
  wire_frame =
      ap₂ (λ (i : ℕ) p. record f { stream_id = i; payload = p }) (omega (arith, ok.id_fits))
        (ap (λ (n : ℕ). take n (f.payload ++ rest)) wire_size ∙ take-append f.payload rest)

  wire_rest : after_first (wire f ++ rest) ≡ rest
  wire_rest =
      let n = length f.payload in
      let unary : 9 + n ≡ suc (suc (suc (suc (suc (suc (suc (suc (suc n)))))))) = omega arith in
      rw wire_size (ap (λ (k : ℕ). drop k (wire f ++ rest)) unary ∙ drop-append f.payload rest)

split-wires :
    (fs : List Frame) (tail : List ℕ)
    → All IsFrame fs
    → length tail < 9 + read_24 tail 0
    → split (wires fs ++ tail) ≡ (fs, tail)
split-wires [] tail ok part = split_stop (length tail) tail part
split-wires (f ∷ fs) tail (ok, oks) part =
    ap split (append_assoc (wire f) (wires fs) tail)
    ∙ split-IsComplete (wire f ++ (wires fs ++ tail)) (wire-IsComplete f ok (wires fs ++ tail))
    ∙ ap₂ (λ g r. cons g (split r)) (wire_frame f ok (wires fs ++ tail))
        (wire_rest f ok (wires fs ++ tail))
    ∙ ap (cons f) (split-wires fs tail oks part)

-- However the reads cut the wire forms of some frames and the start of another, the connection
-- delivers exactly those frames in their order, and keeps the start, for identifiers of 31 bits
-- and payloads below 2 ^ 24 bytes.
pub read_all-wires :
    (fs : List Frame) (tail : List ℕ) (buffers : List (List ℕ))
    → All IsFrame fs
    → length tail < 9 + read_24 tail 0
    → concat buffers ≡ wires fs ++ tail
    → read_all [] buffers ≡ (fs, tail)
read_all-wires fs tail buffers ok part cut =
    read_all-concat [] buffers (omega arith) ∙ ap split cut ∙ split-wires fs tail ok part
