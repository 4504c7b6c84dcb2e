-- ===== src/Http2/Flow/Ledger.antt =====
-- The ledger of stream credit: entries and credit of a stream, and how the list operations of
-- findPendingWindow, addStreamWindowCredit and discardPendingStreamWindow act on them.
use http_request_client.Prelude.{
  ℕ, suc, ◌+◌, ◌-◌, ◌≤◌, ◌≡◌, ◌≢◌, refl, ap, inl, inr, List, [], ◌∷◌, false, arith, ◌==◌,
  if◌then◌else◌, length, drop_last, Bool-cases, Option, none, some,
}
use http_request_client.Http2.Flow.{
  PendingWindowUpdate, last_or, discard_entry, find_pending_window, set_credit,
}

-- The number of entries for a stream, and their credit.
abbrev pub entries : List PendingWindowUpdate → ℕ → ℕ
entries [] id = 0
entries (e ∷ es) id = (if e.stream_id == id then 1 else 0) + entries es id

abbrev pub owed : List PendingWindowUpdate → ℕ → ℕ
owed [] id = 0
owed (e ∷ es) id = (if e.stream_id == id then e.credit else 0) + owed es id

entries-last :
    (f : PendingWindowUpdate) (es : List PendingWindowUpdate) (id : ℕ)
    → entries (f ∷ es) id ≡ entries (last_or f es ∷ drop_last (f ∷ es)) id
entries-last f [] id = refl
entries-last f (g ∷ es) id = omega (arith, entries-last g es id)

owed-last :
    (f : PendingWindowUpdate) (es : List PendingWindowUpdate) (id : ℕ)
    → owed (f ∷ es) id ≡ owed (last_or f es ∷ drop_last (f ∷ es)) id
owed-last f [] id = refl
owed-last f (g ∷ es) id = omega (arith, owed-last g es id)

length-last :
    (f : PendingWindowUpdate) (es : List PendingWindowUpdate)
    → length (drop_last (f ∷ es)) ≡ length es
length-last f [] = refl
length-last f (g ∷ es) = ap suc (length-last g es)

-- Without an entry there is no credit.
pub none-owed : (es : List PendingWindowUpdate) (id : ℕ) → entries es id ≡ 0 → owed es id ≡ 0
none-owed [] id h = refl
none-owed (e ∷ es) id h = ground (arith, none-owed es id)

-- Discarding takes one entry of the stream, if there is one.
pub discard-entries :
    (es : List PendingWindowUpdate) (id : ℕ) → entries (discard_entry es id) id ≡ entries es id - 1
unfolding discard_entry
discard-entries [] id = refl
discard-entries (e ∷ []) id = elim (Bool-cases (e.stream_id == id)) [
  | inl here ↦ rw here refl
  | inr elsewhere ↦ rw elsewhere (rw elsewhere refl)
]
discard-entries (e ∷ f ∷ es) id = elim (Bool-cases (e.stream_id == id)) [
  | inl here ↦ rw here (omega (arith, entries-last f es id))
  | inr elsewhere ↦ rw elsewhere (rw elsewhere (omega (arith, discard-entries (f ∷ es) id)))
]

-- Another stream keeps its entries and its credit.
pub discard-other :
    (es : List PendingWindowUpdate) (id other : ℕ)
    → id ≢ other
    → (entries (discard_entry es id) other ≡ entries es other)
      × (owed (discard_entry es id) other ≡ owed es other)
unfolding discard_entry
discard-other [] id other h = (refl, refl)
discard-other (e ∷ []) id other h = elim (Bool-cases (e.stream_id == id)) [
  | inl here ↦ rw here (ground arith, ground arith)
  | inr elsewhere ↦ rw elsewhere (refl, refl)
]
discard-other (e ∷ f ∷ es) id other h = elim (Bool-cases (e.stream_id == id)) [
  | inl here ↦
      let away : (e.stream_id == other) ≡ false = ground arith in
      rw (here, away) (omega (arith, entries-last f es other), omega (arith, owed-last f es other))
  | inr elsewhere ↦
      let (p, q) = discard-other (f ∷ es) id other h in
      rw elsewhere (omega (arith, p), omega (arith, q))
]

pub discard-length :
    (es : List PendingWindowUpdate) (id : ℕ) → length (discard_entry es id) ≤ length es
unfolding discard_entry
discard-length [] id = omega arith
discard-length (e ∷ []) id = ground arith
discard-length (e ∷ f ∷ es) id = elim (Bool-cases (e.stream_id == id)) [
  | inl here ↦ rw here (omega (arith, length-last f es))
  | inr elsewhere ↦ rw elsewhere (omega (arith, discard-length (f ∷ es) id))
]

-- Looking up a stream finds its credit, where the stream has at most one entry.
pub find_none :
    (es : List PendingWindowUpdate) (id : ℕ) → find_pending_window es id ≡ none → entries es id ≡ 0
unfolding find_pending_window
find_none [] id h = refl
find_none (e ∷ es) id h = ground (arith, find_none es id)

abbrev value : Option ℕ → ℕ
value none = 0
value (some n) = n

pub find_some :
    (es : List PendingWindowUpdate) (id held : ℕ)
    → entries es id ≤ 1
    → find_pending_window es id ≡ some held
    → (entries es id ≡ 1) × (owed es id ≡ held)
unfolding find_pending_window
find_some [] id held one h = absurd cc
find_some (e ∷ es) id held one h = elim (Bool-cases (e.stream_id == id)) [
  | inl here ↦
      let same : e.credit ≡ held = ap value (rw here at h) in
      let one' : 1 + entries es id ≤ 1 = rw here at one in
      rw here (omega arith, omega (arith, none-owed es id (omega arith)))
  | inr elsewhere ↦
      let later : find_pending_window es id ≡ some held = rw elsewhere at h in
      let one' : 0 + entries es id ≤ 1 = rw elsewhere at one in
      let (p, q) = find_some es id held (omega arith) later in
      rw elsewhere (omega arith, omega arith)
]

pub set_credit-entries :
    (es : List PendingWindowUpdate) (id credit other : ℕ)
    → entries (set_credit es id credit) other ≡ entries es other
unfolding set_credit
set_credit-entries [] id credit other = refl
set_credit-entries (e ∷ es) id credit other = elim (Bool-cases (e.stream_id == id)) [
  | inl here ↦ rw here refl
  | inr elsewhere ↦ rw elsewhere (omega (arith, set_credit-entries es id credit other))
]

pub set_credit-length :
    (es : List PendingWindowUpdate) (id credit : ℕ) → length (set_credit es id credit) ≡ length es
unfolding set_credit
set_credit-length [] id credit = refl
set_credit-length (e ∷ es) id credit = elim (Bool-cases (e.stream_id == id)) [
  | inl here ↦ rw here refl
  | inr elsewhere ↦ rw elsewhere (ap suc (set_credit-length es id credit))
]

pub set_credit-owed :
    (es : List PendingWindowUpdate) (id credit : ℕ)
    → entries es id ≡ 1
    → owed (set_credit es id credit) id ≡ credit
unfolding set_credit
set_credit-owed [] id credit one = absurd (omega arith)
set_credit-owed (e ∷ es) id credit one = elim (Bool-cases (e.stream_id == id)) [
  | inl here ↦
      let one' : 1 + entries es id ≡ 1 = rw here at one in
      rw here (rw here (omega (arith, none-owed es id (omega arith))))
  | inr elsewhere ↦
      let one' : 0 + entries es id ≡ 1 = rw elsewhere at one in
      rw elsewhere (rw elsewhere (omega (arith, set_credit-owed es id credit (omega arith))))
]

pub set_credit-other :
    (es : List PendingWindowUpdate) (id credit other : ℕ)
    → id ≢ other
    → owed (set_credit es id credit) other ≡ owed es other
unfolding set_credit
set_credit-other [] id credit other h = refl
set_credit-other (e ∷ es) id credit other h = elim (Bool-cases (e.stream_id == id)) [
  | inl here ↦ let away : (e.stream_id == other) ≡ false = ground arith in rw (here, away) refl
  | inr elsewhere ↦ rw elsewhere (omega (arith, set_credit-other es id credit other h))
]
