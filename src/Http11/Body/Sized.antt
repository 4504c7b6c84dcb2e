-- ===== src/Http11/Body/Sized.antt =====
-- A body of a known length, however the network cuts it.
use http_request_client.Prelude.{
  ℕ, zero, suc, ◌+◌, ◌-◌, ◌*◌, ◌≤◌, ◌<◌, ◌≡◌, ◌⊎◌, inl, inr, refl, sym, ap, ◌∙◌, List, [], ◌∷◌,
  ◌++◌, true, false, ◌==◌, ltb, if◌then◌else◌, length, take, drop, arith, if_true, if_false,
  length-drop, take-append_le, drop-append_le, take-append-drop, Bool-cases,
}
use mathlib.Core.Path.{subst}
use http_request_client.Response.Stream.{Decompressors, Funnel, append_stream_payload}
use http_request_client.Http11.Reader.{
  Code, Read, Reader, is_stopped, read_chunk, receive_more, reader_fill,
}
use http_request_client.Http11.Reader.Lines.{IsBounded, IsReady, arrives, open_reader, pending}
use http_request_client.Http11.Body.{
  BodyRead, body_rounds, read_content_length_body, reader_read_body,
}
use http_request_client.Http11.Body.Plain.{
  IsExtended, IsExtended-append, IsExtended-refl, KeepsBody, append_stream_payload-IsAccepted,
}

-- The smaller of two numbers, as the code takes it.
abbrev smaller : ℕ → ℕ → ℕ
smaller a b = if ltb a b then a else b

smaller_bounds : (a b : ℕ) → (smaller a b ≤ a) × (smaller a b ≤ b)
smaller_bounds a b = ground arith

smaller-cases : (a b : ℕ) → (smaller a b ≡ a) ⊎ (smaller a b ≡ b)
smaller-cases a b = elim (Bool-cases (ltb a b)) [
  | inl h ↦ inl (if_true (ltb a b) a b h)
  | inr h ↦ inr (if_false (ltb a b) a b h)
]

-- The rounds that a body needs.
abbrev needed : List ℕ → List ℕ → List Read → ℕ
needed [] unread reads = 1
needed (x ∷ xs) [] reads = 2 * length reads + 1
needed (x ∷ xs) (u ∷ us) reads = 2 * length reads + 2

needed-empty_le : (text : List ℕ) (reads : List Read) → needed text [] reads ≤ 2 * length reads + 1
needed-empty_le [] reads = omega arith
needed-empty_le (x ∷ xs) reads = omega arith

pub needed-le :
    (text unread : List ℕ) (reads : List Read) → needed text unread reads ≤ 2 * length reads + 2
needed-le [] unread reads = omega arith
needed-le (x ∷ xs) [] reads = omega arith
needed-le (x ∷ xs) (u ∷ us) reads = omega arith

needed-pos : (text unread : List ℕ) (reads : List Read) → 0 < needed text unread reads
needed-pos [] unread reads = omega arith
needed-pos (x ∷ xs) [] reads = omega arith
needed-pos (x ∷ xs) (u ∷ us) reads = omega arith

drop_all : (xs : List ℕ) → drop (length xs) xs ≡ []
drop_all [] = refl
drop_all (x ∷ xs) = drop_all xs

-- After a round of `smaller` bytes nothing of the text or nothing of the buffer is left.
needed-drop :
    (text unread : List ℕ) (reads : List Read) (k : ℕ)
    → (k ≡ length text) ⊎ (k ≡ length unread)
    → needed (drop k text) (drop k unread) reads ≤ 2 * length reads + 1
needed-drop text unread reads k (inl e) = rw (e, drop_all text) (omega arith)
needed-drop text unread reads k (inr e) =
    rw (e, drop_all unread) (needed-empty_le (drop (length unread) text) reads)

-- Where two lists start alike, so do what is taken and what remains.
take_same :
    (k : ℕ) (xs ys zs ws : List ℕ)
    → k ≤ length xs
    → k ≤ length zs
    → xs ++ ys ≡ zs ++ ws
    → (take k xs ≡ take k zs) × (drop k xs ++ ys ≡ drop k zs ++ ws)
take_same k xs ys zs ws h i same = (
  sym (take-append_le xs ys k h) ∙ ap (take k) same ∙ take-append_le zs ws k i,
  sym (drop-append_le xs ys k h) ∙ ap (drop k) same ∙ drop-append_le zs ws k i,
)

module _ (d : Decompressors) where
  -- A body is read: its text joins the payload, and `rest` remains.
  pub record IsBodyRead (f : Funnel d) (text rest : List ℕ) (result : BodyRead d) : Type 0 where
    pub success : result.0 ≡ Code.done
    pub extended : IsExtended d f text result.1.0
    pub remains : pending result.1.1 ≡ rest
    pub ready : IsReady result.1.1

  round_take :
      (fuel : ℕ) (f : Funnel d) (r : Reader) (n u : ℕ) (us : List ℕ)
      → r.unread ≡ u ∷ us
      → (let k = smaller (suc n) (length r.unread) in
          let fed = append_stream_payload d f (take k r.unread) in
          fed.0 ≡ true
          → body_rounds d (suc fuel) f r (suc n)
            ≡ body_rounds d fuel fed.1
                (record r { pos = r.pos + k; unread = drop k r.unread })
                (suc n - k))
  unfolding body_rounds
  round_take fuel f r n u us full goes_on =
      if_false (suc n == 0) _ _ (ground arith)
      ∙ if_true (ltb 0 (length r.unread)) _ _ (rw full (ground arith))
      ∙ if_true _ _ _ goes_on

  round_fill :
      (fuel : ℕ) (f : Funnel d) (r : Reader) (n : ℕ)
      → r.unread ≡ []
      → is_stopped r ≡ false
      → body_rounds d (suc fuel) f r (suc n) ≡ body_rounds d fuel f (reader_fill r) (suc n)
  unfolding body_rounds
  round_fill fuel f r n empty runs =
      if_false (suc n == 0) _ _ (ground arith)
      ∙ if_false (ltb 0 (length r.unread)) _ _ (rw empty (ground arith))
      ∙ if_false (is_stopped r) _ _ runs

  round_done :
      (fuel : ℕ) (f : Funnel d) (r : Reader) → body_rounds d (suc fuel) f r 0 ≡ (Code.done, (f, r))
  unfolding body_rounds
  round_done fuel f r = refl

  pub append-IsBodyRead :
      (f fed : Funnel d) (front text rest : List ℕ) {result : BodyRead d}
      → IsExtended d f front fed
      → IsBodyRead fed text rest result
      → IsBodyRead f (front ++ text) rest result
  append-IsBodyRead f fed front text rest {result} p q = record {
    success = q.success;
    extended = IsExtended-append d f fed result.1.0 front text p q.extended;
    remains = q.remains;
    ready = q.ready;
  }

  -- What a round of `k` bytes leaves is the rest of the body.
  taken-IsBodyRead :
      (f fed : Funnel d) (k : ℕ) (text rest : List ℕ) {result : BodyRead d}
      → IsExtended d f (take k text) fed
      → IsBodyRead fed (drop k text) rest result
      → IsBodyRead f text rest result
  taken-IsBodyRead f fed k text rest {result} p q =
      subst (λ t. IsBodyRead f t rest result) (take-append-drop k text)
        (append-IsBodyRead f fed (take k text) (drop k text) rest p q)

  rounds-IsBodyRead :
      (fuel : ℕ) (reads : List Read) (f : Funnel d) (pos : ℕ) (unread text rest : List ℕ)
      → KeepsBody d f.sink
      → IsBounded reads
      → pos + length unread ≤ read_chunk + read_chunk
      → unread ++ arrives reads ≡ text ++ rest
      → needed text unread reads ≤ fuel
      → IsBodyRead f text rest (body_rounds d fuel f (open_reader pos unread reads) (length text))
  unfolding reader_fill receive_more is_stopped
  rounds-IsBodyRead zero reads f pos unread text rest keeps bounded small same h =
      absurd (omega (arith, needed-pos text unread reads))
  rounds-IsBodyRead (suc fuel) reads f pos unread [] rest keeps bounded small same h =
      rw (round_done fuel f (open_reader pos unread reads)) (record {
        success = refl;
        extended = IsExtended-refl d f keeps;
        remains = same;
        ready = record { is_open = refl; is_fine = refl; bounded = bounded; small = small };
      })
  rounds-IsBodyRead (suc fuel) (Read.bytes b bs ∷ reads) f pos [] (x ∷ xs) rest keeps bounded small
        same h =
      rw (round_fill fuel f (open_reader pos [] (Read.bytes b bs ∷ reads)) (length xs) refl refl) (
        rounds-IsBodyRead fuel reads f 0 (b ∷ bs) (x ∷ xs) rest keeps bounded.1
          (omega (arith, bounded.0)) same (omega (arith, needed-le (x ∷ xs) (b ∷ bs) reads)))
  rounds-IsBodyRead (suc fuel) [] f pos [] (x ∷ xs) rest keeps bounded small same h = cc
  rounds-IsBodyRead (suc fuel) (Read.closed ∷ reads) f pos [] (x ∷ xs) rest keeps bounded small same
        h =
      cc
  rounds-IsBodyRead (suc fuel) (Read.failed ∷ reads) f pos [] (x ∷ xs) rest keeps bounded small same
        h =
      cc
  rounds-IsBodyRead (suc fuel) (Read.timed_out ∷ reads) f pos [] (x ∷ xs) rest keeps bounded small
        same h =
      cc
  rounds-IsBodyRead (suc fuel) reads f pos (u ∷ us) (x ∷ xs) rest keeps bounded small same h =
      let k = smaller (length (x ∷ xs)) (length (u ∷ us)) in
      let low = smaller_bounds (length (x ∷ xs)) (length (u ∷ us)) in
      let parts = take_same k (u ∷ us) (arrives reads) (x ∷ xs) rest low.1 low.0 same in
      let r = open_reader pos (u ∷ us) reads in
      let fed = append_stream_payload d f (take k (u ∷ us)) in
      let accepted = append_stream_payload-IsAccepted d f (take k (u ∷ us)) keeps in
      let left = length-drop k (u ∷ us) in
      rw (round_take fuel f r (length xs) u us refl accepted.goes_on, ← length-drop k (x ∷ xs))
        (taken-IsBodyRead f fed.1 k (x ∷ xs) rest
          (subst (λ t. IsExtended d f t fed.1) parts.0 accepted.extended)
          (rounds-IsBodyRead fuel reads fed.1 (pos + k) (drop k (u ∷ us)) (drop k (x ∷ xs)) rest
            accepted.extended.keeps bounded (omega (arith, left, low.1)) parts.1
            (omega (arith, needed-drop (x ∷ xs) (u ∷ us) reads k (smaller-cases _ _)))))

  pub reader_read_body-IsBodyRead :
      (f : Funnel d) (r : Reader) (text rest : List ℕ)
      → KeepsBody d f.sink
      → IsReady r
      → pending r ≡ text ++ rest
      → IsBodyRead f text rest (reader_read_body d f r (length text))
  unfolding reader_read_body
  reader_read_body-IsBodyRead f r text rest keeps ready same =
      let explicit : open_reader r.pos r.unread r.reads ≡ r = cc (ready.is_open, ready.is_fine) in
      subst (λ t. IsBodyRead f text rest (body_rounds d (2 * length t.reads + 4) f t (length text)))
        explicit
        (rounds-IsBodyRead (2 * length r.reads + 4) r.reads f r.pos r.unread text rest keeps
          ready.bounded ready.small same (omega (arith, needed-le text r.unread r.reads)))

  pub read_content_length_body-IsBodyRead :
      (f : Funnel d) (r : Reader) (text rest : List ℕ)
      → KeepsBody d f.sink
      → IsReady r
      → pending r ≡ text ++ rest
      → IsBodyRead f text rest (read_content_length_body d f r (length text))
  unfolding read_content_length_body
  read_content_length_body-IsBodyRead f r [] rest keeps ready same = record {
    success = refl;
    extended = IsExtended-refl d f keeps;
    remains = same;
    ready = ready;
  }
  read_content_length_body-IsBodyRead f r (x ∷ xs) rest keeps ready same =
      rw
        (if_false (length (x ∷ xs) == 0) (Code.done, (f, r))
          (reader_read_body d f r (length (x ∷ xs))) (ground arith))
        (reader_read_body-IsBodyRead f r (x ∷ xs) rest keeps ready same)
