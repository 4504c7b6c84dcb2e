-- ===== src/Request/Order.antt =====
-- src/Basket.c: reorderHeadersByOrderKey, which puts the headers of a request into the order that the
-- header X-HeaderOrderKey lists. The flags on how to free a header's texts are left out.
pub mod Filters
pub mod Sorting
use http_request_client.Prelude.{
  ℕ, List, [], ◌∷◌, ◌++◌, Option, none, some, Bool, true, false, not, ◌&&◌, ◌||◌, ◌==◌,
  if◌then◌else◌, length, map,
}
use http_request_client.Prelude.Text.{codes, str_case_eq}
use http_request_client.Errors.{Error, err_request_header_order_key_missing_header, is_error}
use http_request_client.Http11.Text.{trim}

pub record RequestHeader : Type 0 where
  pub name : List ℕ
  pub value : List ℕ
  pub is_pseudo : Bool

-- A header of the array, whether it is the one at `orderIdx`, and its entry of `matched`.
pub record Slot : Type 0 where
  pub header : RequestHeader
  pub is_order_key : Bool
  pub is_matched : Bool

unfoldable pub is_order_header : RequestHeader → Bool
unfolding str_case_eq
is_order_header h = not h.is_pseudo && str_case_eq h.name (codes "X-HeaderOrderKey")

abbrev pub unmarked : RequestHeader → Slot
unmarked h = record { header = h; is_order_key = false; is_matched = false }

-- Only the first header of that name is the order key.
unfoldable pub slots_of : List RequestHeader → List Slot
unfolding is_order_header
slots_of [] = []
slots_of (h ∷ hs) =
    if is_order_header h
    then (record { header = h; is_order_key = true; is_matched = false }) ∷ map unmarked hs
    else unmarked h ∷ slots_of hs

unfoldable pub order_value : List RequestHeader → Option (List ℕ)
unfolding is_order_header
order_value [] = none
order_value (h ∷ hs) = if is_order_header h then some h.value else order_value hs

-- The text before the first comma, and whether one is there with a text behind it.
unfoldable pub split_commas : List ℕ → List ℕ × List (List ℕ)
split_commas [] = ([], [])
split_commas (c ∷ cs) =
    let (first, others) = split_commas cs in
    if c == b',' then ([], first ∷ others) else (c ∷ first, others)

abbrev pub drop_empty : List (List ℕ) → List (List ℕ)
drop_empty [] = []
drop_empty (key ∷ keys) = if length key == 0 then drop_empty keys else key ∷ drop_empty keys

-- The listed names, without white space around them and without empty ones.
unfoldable pub parse_keys : List ℕ → List (List ℕ)
unfolding split_commas trim
parse_keys raw = let (first, others) = split_commas raw in drop_empty (map trim (first ∷ others))

unfoldable pub is_listed : List (List ℕ) → List ℕ → Bool
unfolding str_case_eq
is_listed [] name = false
is_listed (key ∷ keys) name = str_case_eq name key || is_listed keys name

-- A header that the list must name.
unfoldable pub is_missing : List (List ℕ) → Slot → Bool
unfolding is_listed
is_missing keys s =
    not (s.header.is_pseudo || (s.is_order_key || str_case_eq s.header.name (codes "connection")))
    && not (is_listed keys s.header.name)

unfoldable pub has_missing : List (List ℕ) → List Slot → Bool
unfolding is_missing
has_missing keys [] = false
has_missing keys (s ∷ ss) = is_missing keys s || has_missing keys ss

unfoldable pub pseudo_headers : List Slot → List RequestHeader
pseudo_headers [] = []
pseudo_headers (s ∷ ss) =
    if s.header.is_pseudo then s.header ∷ pseudo_headers ss else pseudo_headers ss

unfoldable pub is_free : Slot → Bool
is_free s = not (s.header.is_pseudo || (s.is_order_key || s.is_matched))

-- The headers of one name, which are marked as matched.
unfoldable pub take_named : List ℕ → List Slot → List RequestHeader × List Slot
unfolding is_free str_case_eq
take_named key [] = ([], [])
take_named key (s ∷ ss) =
    let (headers, rest) = take_named key ss in
    if is_free s && str_case_eq s.header.name key
    then (s.header ∷ headers, record s { is_matched = true } ∷ rest)
    else (headers, s ∷ rest)

unfoldable pub take_keys : List (List ℕ) → List Slot → List RequestHeader × List Slot
unfolding take_named
take_keys [] ss = ([], ss)
take_keys (key ∷ keys) ss =
    let (headers, rest) = take_named key ss in
    let (more, last) = take_keys keys rest in (headers ++ more, last)

-- The headers of the request, and the error of the basket.
pub record Ordered : Type 0 where
  pub headers : List RequestHeader
  pub error : Error

unfoldable pub reorder_headers_by_order_key : Ordered → Ordered
reorder_headers_by_order_key o = elim (order_value o.headers) [
  | none ↦ o
  | some raw ↦
      let slots = slots_of o.headers in
      let keys = parse_keys raw in
      let (listed, rest) = take_keys keys slots in
      let (connections, last) = take_named (codes "connection") rest in
      if has_missing keys slots
      then record o { error = err_request_header_order_key_missing_header }
      else if is_error o.error
      then o
      else record o { headers = pseudo_headers slots ++ (listed ++ connections) }
]
