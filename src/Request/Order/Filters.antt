-- ===== src/Request/Order/Filters.antt =====
-- The placing of headers by their names, described by filters.
use http_request_client.Prelude.{
  ℕ, ◌≡◌, refl, sym, ap, ap₂, ◌∙◌, inl, inr, List, [], ◌∷◌, ◌++◌, append-nil, append_assoc, Bool,
  true, false, ◌||◌, if◌then◌else◌, map, All, arith, Bool-cases,
}
use mathlib.Core.Path.{subst}
use mathlib.Core.List.{Perm, perm_middle}
use mathlib.Core.List.Perm
use http_request_client.Prelude.Text.{codes, str_case_eq}
use http_request_client.Request.Order.{
  RequestHeader, Slot, is_free, is_listed, is_order_header, pseudo_headers, slots_of, take_keys,
  take_named, unmarked,
}

-- The headers that have, and that have not, this name.
abbrev pub with_name : List ℕ → List RequestHeader → List RequestHeader
with_name key [] = []
with_name key (h ∷ hs) = if str_case_eq h.name key then h ∷ with_name key hs else with_name key hs

abbrev pub without_name : List ℕ → List RequestHeader → List RequestHeader
without_name key [] = []
without_name key (h ∷ hs) =
    if str_case_eq h.name key then without_name key hs else h ∷ without_name key hs

-- The headers by their names, in the order of the list.
abbrev pub by_keys : List (List ℕ) → List RequestHeader → List RequestHeader
by_keys [] hs = []
by_keys (key ∷ keys) hs = with_name key hs ++ by_keys keys (without_name key hs)

abbrev rest_of : List (List ℕ) → List RequestHeader → List RequestHeader
rest_of [] hs = hs
rest_of (key ∷ keys) hs = rest_of keys (without_name key hs)

-- The headers of the slots that are still to be placed.
abbrev pub free_headers : List Slot → List RequestHeader
free_headers [] = []
free_headers (s ∷ ss) = if is_free s then s.header ∷ free_headers ss else free_headers ss

matched-is_free : (s : Slot) → is_free (record s { is_matched = true }) ≡ false
unfolding is_free
matched-is_free s = ground arith

pub take_named-free :
    (key : List ℕ) (ss : List Slot)
    → ((take_named key ss).0 ≡ with_name key (free_headers ss))
      × (free_headers (take_named key ss).1 ≡ without_name key (free_headers ss))
unfolding take_named
take_named-free key [] = (refl, refl)
take_named-free key (s ∷ ss) =
    let rest = take_named-free key ss in
    elim (Bool-cases (is_free s)) [
      | inl free ↦ elim (Bool-cases (str_case_eq s.header.name key)) [
        | inl same ↦ rw (free, same, matched-is_free s, rest.0, rest.1) (refl, refl)
        | inr other ↦ rw (free, other, free, rest.0, rest.1) (refl, refl)
      ]
      | inr taken ↦ rw (taken, taken, rest.0, rest.1) (refl, refl)
    ]

pub take_keys-free :
    (keys : List (List ℕ)) (ss : List Slot)
    → ((take_keys keys ss).0 ≡ by_keys keys (free_headers ss))
      × (free_headers (take_keys keys ss).1 ≡ rest_of keys (free_headers ss))
unfolding take_keys
take_keys-free [] ss = (refl, refl)
take_keys-free (key ∷ keys) ss =
    let one = take_named-free key ss in
    let more = take_keys-free keys (take_named key ss).1 in
    (ap₂ ◌++◌ one.0 (more.0 ∙ ap (by_keys keys) one.1), more.1 ∙ ap (rest_of keys) one.1)

-- Splitting by a name keeps every header.
name-perm :
    (key : List ℕ) (hs : List RequestHeader) → Perm (with_name key hs ++ without_name key hs) hs
name-perm key [] = Perm.refl []
name-perm key (h ∷ hs) = elim (Bool-cases (str_case_eq h.name key)) [
  | inl same ↦ rw same (Perm.cons h (name-perm key hs))
  | inr other ↦ rw other (
      Perm.trans (perm_middle (with_name key hs) (without_name key hs))
        (Perm.cons h (name-perm key hs)))
]

by_keys-perm :
    (keys : List (List ℕ)) (hs : List RequestHeader) → Perm (by_keys keys hs ++ rest_of keys hs) hs
by_keys-perm [] hs = Perm.refl hs
by_keys-perm (key ∷ keys) hs =
    rw
      (append_assoc (with_name key hs) (by_keys keys (without_name key hs))
        (rest_of keys (without_name key hs)))
      (Perm.trans (Perm.append_left (with_name key hs) (by_keys-perm keys (without_name key hs)))
        (name-perm key hs))

-- A header whose name is listed is placed.
unfoldable pub AllListed : List (List ℕ) → List RequestHeader → Type 0
AllListed keys hs = All (λ h. is_listed keys h.name ≡ true) hs

if_or : (a b : Bool) → a ≡ false → (a || b) ≡ true → b ≡ true
if_or a b h i = ground arith

without-AllListed :
    (key : List ℕ) (keys : List (List ℕ)) (hs : List RequestHeader)
    → AllListed (key ∷ keys) hs
    → AllListed keys (without_name key hs)
unfolding AllListed is_listed
without-AllListed key keys [] h = tt
without-AllListed key keys (x ∷ xs) h = elim (Bool-cases (str_case_eq x.name key)) [
  | inl same ↦ rw same (without-AllListed key keys xs h.1)
  | inr other ↦ rw other (if_or _ _ other h.0, without-AllListed key keys xs h.1)
]

rest_of-listed :
    (keys : List (List ℕ)) (hs : List RequestHeader) → AllListed keys hs → rest_of keys hs ≡ []
unfolding AllListed is_listed
rest_of-listed [] [] h = refl
rest_of-listed [] (x ∷ xs) h = absurd (let e = h.0 in cc)
rest_of-listed (key ∷ keys) hs h =
    rest_of-listed keys (without_name key hs) (without-AllListed key keys hs h)

abbrev pub connection : List ℕ
connection = codes "connection"

rest_of-append :
    (keys : List (List ℕ)) (key : List ℕ) (hs : List RequestHeader)
    → rest_of (keys ++ key ∷ []) hs ≡ without_name key (rest_of keys hs)
rest_of-append [] key hs = refl
rest_of-append (k ∷ keys) key hs = rest_of-append keys key (without_name k hs)

pub is_listed-append :
    (keys : List (List ℕ)) (key name : List ℕ)
    → is_listed (keys ++ key ∷ []) name ≡ (is_listed keys name || str_case_eq name key)
unfolding is_listed
is_listed-append [] key name = ground arith
is_listed-append (k ∷ keys) key name = ground (arith, is_listed-append keys key name)

pub by_keys-append :
    (keys : List (List ℕ)) (key : List ℕ) (hs : List RequestHeader)
    → by_keys (keys ++ key ∷ []) hs ≡ by_keys keys hs ++ with_name key (rest_of keys hs)
by_keys-append [] key hs = append-nil (with_name key hs)
by_keys-append (k ∷ keys) key hs =
    ap (◌++◌ (with_name k hs)) (by_keys-append keys key (without_name k hs))
    ∙ sym (
        append_assoc (with_name k hs) (by_keys keys (without_name k hs))
          (with_name key (rest_of keys (without_name k hs))))

-- The headers without the order key, and the pseudo headers and the others among them.
abbrev pub drop_order_key : List RequestHeader → List RequestHeader
drop_order_key [] = []
drop_order_key (h ∷ hs) = if is_order_header h then hs else h ∷ drop_order_key hs

abbrev pub pseudos : List RequestHeader → List RequestHeader
pseudos [] = []
pseudos (h ∷ hs) = if h.is_pseudo then h ∷ pseudos hs else pseudos hs

abbrev pub reals : List RequestHeader → List RequestHeader
reals [] = []
reals (h ∷ hs) = if h.is_pseudo then reals hs else h ∷ reals hs

unmarked-split :
    (hs : List RequestHeader)
    → (pseudo_headers (map unmarked hs) ≡ pseudos hs) × (free_headers (map unmarked hs) ≡ reals hs)
unfolding pseudo_headers is_free
unmarked-split [] = (refl, refl)
unmarked-split (h ∷ hs) = ground (arith, unmarked-split hs)

pub order_header-real : (h : RequestHeader) → is_order_header h ≡ true → h.is_pseudo ≡ false
unfolding is_order_header
order_header-real h e = ground arith

pub slots_of-split :
    (hs : List RequestHeader)
    → (pseudo_headers (slots_of hs) ≡ pseudos (drop_order_key hs))
      × (free_headers (slots_of hs) ≡ reals (drop_order_key hs))
unfolding pseudo_headers is_free slots_of
slots_of-split [] = (refl, refl)
slots_of-split (h ∷ hs) = elim (Bool-cases (is_order_header h)) [
  | inl key ↦ rw (key, order_header-real h key) (unmarked-split hs)
  | inr other ↦ rw other (ground (arith, slots_of-split hs))
]

split_step :
    (pseudo : Bool) (h : RequestHeader) (ps rs hs : List RequestHeader)
    → Perm (ps ++ rs) hs
    → Perm ((if pseudo then h ∷ ps else ps) ++ (if pseudo then rs else h ∷ rs)) (h ∷ hs)
split_step true h ps rs hs p = Perm.cons h p
split_step false h ps rs hs p = Perm.trans (perm_middle ps rs) (Perm.cons h p)

split-perm : (hs : List RequestHeader) → Perm (pseudos hs ++ reals hs) hs
split-perm [] = Perm.refl []
split-perm (h ∷ hs) = split_step h.is_pseudo h (pseudos hs) (reals hs) hs (split-perm hs)

kept_names :
    (names : List (List ℕ)) (hs : List RequestHeader)
    → AllListed names hs
    → Perm (by_keys names hs) hs
kept_names names hs listed =
    subst (λ t. Perm t hs)
      (ap (◌++◌ (by_keys names hs)) (rest_of-listed names hs listed)
        ∙ append-nil (by_keys names hs))
      (by_keys-perm names hs)

-- What the headers become.
abbrev pub sorted : List (List ℕ) → List RequestHeader → List RequestHeader
sorted keys hs = pseudos hs ++ by_keys (keys ++ connection ∷ []) (reals hs)

pub sorted-perm :
    (keys : List (List ℕ)) (hs : List RequestHeader)
    → AllListed (keys ++ connection ∷ []) (reals hs)
    → Perm (sorted keys hs) hs
sorted-perm keys hs listed =
    let names = keys ++ connection ∷ [] in
    let kept : Perm (by_keys names (reals hs)) (reals hs) = kept_names names (reals hs) listed in
    Perm.trans (Perm.append_left (pseudos hs) kept) (split-perm hs)
