-- ===== src/Http2/Flow/Credit.antt =====
-- The credit of each stream under addStreamWindowCredit and discardPendingStreamWindow.
use http_request_client.Prelude.{
  ℕ, ◌+◌, ◌^◌, ◌≤◌, ◌<◌, ◌≡◌, ◌≢◌, ◌⊎◌, refl, sym, ◌∙◌, inl, inr, List, [], ◌∷◌, ◌++◌, append-nil,
  arith, leb, ◌==◌, if◌then◌else◌, length, length-append, Bool-cases, lt→leb, Option-cases,
}
use http_request_client.Http2.Frames.{fill_window_update_frame}
use http_request_client.Http2.Flow.{
  Session, PendingWindowUpdate, add_32, stream_window_update_threshold,
  max_concurrent_streams_per_session, raise_credit, add_stream_window_credit, discard_entry,
  discard_pending_stream_window, find_pending_window, set_credit, queue_window_update_frame,
  queue_control_frame,
}
use http_request_client.Http2.Flow.Ledger.{
  entries, owed, none-owed, discard-entries, discard-other, discard-length, find_none, find_some,
  set_credit-entries, set_credit-length, set_credit-owed, set_credit-other,
}

-- At most one entry for each stream, no more entries than the array has room for, and no credit
-- above the threshold.
pub record IsLedger (es : List PendingWindowUpdate) : Type 0 where
  pub unique : (id : ℕ) → entries es id ≤ 1
  pub room : length es ≤ max_concurrent_streams_per_session
  pub batched : (id : ℕ) → owed es id ≤ stream_window_update_threshold

-- What a stream's credit becomes, and what is sent for it, when it reaches `total`.
abbrev pub kept : ℕ → ℕ
kept total = if leb total stream_window_update_threshold then total else 0

abbrev pub sent : ℕ → ℕ → List ℕ
sent id total =
    if leb total stream_window_update_threshold then [] else fill_window_update_frame id total

-- A session after credit for one stream: all of the stream's credit is kept or sent, and other
-- streams are as before.
pub record Credited (id total : ℕ) (s t : Session) : Type 0 where
  pub ledger : IsLedger t.pending_stream_windows
  pub own : owed t.pending_stream_windows id ≡ kept total
  pub written : t.pending_wire ≡ s.pending_wire ++ sent id total
  pub others :
      (other : ℕ)
      → id ≢ other
      → owed t.pending_stream_windows other ≡ owed s.pending_stream_windows other

kept_small : (total : ℕ) → kept total ≤ stream_window_update_threshold
kept_small total = ground arith

set_credit-IsLedger :
    (es : List PendingWindowUpdate) (id total : ℕ)
    → IsLedger es
    → entries es id ≡ 1
    → IsLedger (set_credit es id (kept total))
set_credit-IsLedger es id total l one = record {
  unique = λ other. omega (arith, set_credit-entries es id (kept total) other, l.unique other);
  room = omega (arith, set_credit-length es id (kept total), l.room);
  batched = λ other. elim (Bool-cases (id == other)) [
    | inl same ↦
        let e : other ≡ id = ground arith in
        rw e (omega (arith, set_credit-owed es id (kept total) one, kept_small total))
    | inr differ ↦
        omega (arith, set_credit-other es id (kept total) other (ground arith), l.batched other)
  ];
}

raise_credit-Credited :
    (s : Session) (id held credit : ℕ)
    → IsLedger s.pending_stream_windows
    → entries s.pending_stream_windows id ≡ 1
    → held + credit < 2 ^ 32
    → Credited id (held + credit) s (raise_credit s id held credit)
unfolding raise_credit queue_window_update_frame queue_control_frame
raise_credit-Credited s id held credit l one fits =
    let es = s.pending_stream_windows in
    let sum : add_32 held credit ≡ held + credit = omega arith in
    elim (Bool-cases (leb (held + credit) stream_window_update_threshold)) [
      | inl small ↦
          let k : kept (held + credit) ≡ held + credit = rw small refl in
          let l' = rw k at (set_credit-IsLedger es id (held + credit) l one) in
          rw (sum, small)
            (record {
              ledger = l';
              own = rw small (set_credit-owed es id (held + credit) one);
              written = rw small (sym (append-nil s.pending_wire));
              others = λ other h. set_credit-other es id (held + credit) other h;
            })
      | inr large ↦
          let k : kept (held + credit) ≡ 0 = rw large refl in
          let l' = rw k at (set_credit-IsLedger es id (held + credit) l one) in
          rw (sum, large)
            (record {
              ledger = l';
              own = rw large (set_credit-owed es id 0 one);
              written = rw large refl;
              others = λ other h. set_credit-other es id 0 other h;
            })
    ]

-- A new entry, without credit.
abbrev entry : ℕ → PendingWindowUpdate
entry id = record { stream_id = id; credit = 0 }

entries-append :
    (es : List PendingWindowUpdate) (id other : ℕ)
    → entries (es ++ (entry id ∷ [])) other ≡ entries es other + (if id == other then 1 else 0)
entries-append [] id other = omega arith
entries-append (e ∷ es) id other = omega (arith, entries-append es id other)

owed-append :
    (es : List PendingWindowUpdate) (id other : ℕ)
    → owed (es ++ (entry id ∷ [])) other ≡ owed es other
owed-append [] id other = ground arith
owed-append (e ∷ es) id other = omega (arith, owed-append es id other)

append-IsLedger :
    (es : List PendingWindowUpdate) (id : ℕ)
    → IsLedger es
    → entries es id ≡ 0
    → length es < max_concurrent_streams_per_session
    → IsLedger (es ++ (entry id ∷ []))
append-IsLedger es id l fresh space = record {
  unique = λ other. elim (Bool-cases (id == other)) [
    | inl same ↦
        let e : other ≡ id = ground arith in
        let p = entries-append es id other in
        let q : entries es other ≡ 0 = rw e fresh in ground arith
    | inr differ ↦ let p = entries-append es id other in let q = l.unique other in ground arith
  ];
  room = omega (arith, length-append es (entry id ∷ []));
  batched = λ other. omega (arith, owed-append es id other, l.batched other);
}

-- In a well-formed ledger, credit of up to 2 ^ 24 bytes for a stream that has an entry, or for
-- which there is room, is never lost: up to the threshold it is kept, and above it a WINDOW_UPDATE
-- frame returns all of it. The ledger stays well-formed, and other streams keep their credit.
pub add_stream_window_credit_lem :
    (s : Session) (id credit : ℕ)
    → IsLedger s.pending_stream_windows
    → (entries s.pending_stream_windows id ≡ 1)
      ⊎ (length s.pending_stream_windows < max_concurrent_streams_per_session)
    → credit ≤ 2 ^ 24
    → Credited id
        (owed s.pending_stream_windows id + credit)
        s
        (add_stream_window_credit s id credit)
unfolding add_stream_window_credit
add_stream_window_credit_lem s id credit l space fits =
    let es = s.pending_stream_windows in
    elim (Option-cases (find_pending_window es id)) [
      | inl e ↦
          let fresh = find_none es id e in
          let nothing = none-owed es id fresh in
          let small : length es < max_concurrent_streams_per_session = has_room es fresh space in
          let t : Session = record s { pending_stream_windows = es ++ (entry id ∷ []) } in
          let one : entries (es ++ (entry id ∷ [])) id ≡ 1 =
            let p = entries-append es id id in ground arith in
          let c =
            raise_credit-Credited t id 0 credit (append-IsLedger es id l fresh small) one
              (omega arith) in
          rw
            (
              add_stream_window_credit,
              e,
              lt→leb max_concurrent_streams_per_session (length es) small,
              nothing,
            )
            (record {
              ledger = c.ledger;
              own = c.own;
              written = c.written;
              others = λ other h. c.others other h ∙ owed-append es id other;
            })
      | inr (held, e) ↦
          let (one, all) = find_some es id held (l.unique id) e in
          rw (add_stream_window_credit, e, all)
            (raise_credit-Credited s id held credit l one (omega (arith, all, l.batched id)))
    ]
  where
    has_room :
        (es : List PendingWindowUpdate)
        → entries es id ≡ 0
        → (entries es id ≡ 1) ⊎ (length es < max_concurrent_streams_per_session)
        → length es < max_concurrent_streams_per_session
    has_room es fresh (inl one) = absurd (omega arith)
    has_room es fresh (inr small) = small

-- In a well-formed ledger, discarding a stream's entry leaves none for it, keeps every other
-- stream's credit, writes nothing, and keeps the ledger well-formed.
pub discard_pending_stream_window_lem :
    (s : Session) (id : ℕ)
    → IsLedger s.pending_stream_windows
    → IsLedger (discard_pending_stream_window s id).pending_stream_windows
      × (entries (discard_pending_stream_window s id).pending_stream_windows id ≡ 0)
      × ((other : ℕ)
          → id ≢ other
          → owed (discard_pending_stream_window s id).pending_stream_windows other
            ≡ owed s.pending_stream_windows other)
      × ((discard_pending_stream_window s id).pending_wire ≡ s.pending_wire)
unfolding discard_pending_stream_window
discard_pending_stream_window_lem s id l =
    let es = s.pending_stream_windows in
    let none_left : entries (discard_entry es id) id ≡ 0 =
      omega (arith, discard-entries es id, l.unique id) in
    (
      record {
        unique = λ other. elim (Bool-cases (id == other)) [
          | inl same ↦ let e : other ≡ id = ground arith in rw e (omega arith)
          | inr differ ↦ omega (arith, (discard-other es id other (ground arith)).0, l.unique other)
        ];
        room = omega (arith, discard-length es id, l.room);
        batched = λ other. elim (Bool-cases (id == other)) [
          | inl same ↦
              let e : other ≡ id = ground arith in
              rw e (omega (arith, none-owed (discard_entry es id) id none_left))
          | inr differ ↦
              omega (arith, (discard-other es id other (ground arith)).1, l.batched other)
        ];
      },
      none_left,
      λ other h. (discard-other es id other h).1,
      refl,
    )
