-- ===== src/Request/Cookies.antt =====
-- src/Basket.c: processCookies, which makes a header of each cookie, or of each piece of a long one.
-- It runs twice, to count the headers and to fill the array. Allocations succeed.
pub mod Counting
pub mod Values
use http_request_client.Prelude.{
  ℕ, zero, suc, ◌+◌, ◌-◌, List, [], ◌∷◌, ◌++◌, Option, none, some, Bool, true, false, leb, ltb,
  ◌==◌, if◌then◌else◌, length, take, drop,
}
use http_request_client.Prelude.Text.{codes}
use http_request_client.Http11.Text.{is_empty, split_at}
use http_request_client.Request.Order.{RequestHeader}

-- `idx`, and the headers before it; counting leaves the headers alone. A run is `endless` if its loop
-- over a value does not end, which is so for a maximum of 0.
pub record CookieState : Type 0 where
  pub idx : ℕ
  pub headers : List RequestHeader
  pub endless : Bool

abbrev pub cookie_header : List ℕ → List ℕ → RequestHeader
cookie_header name value = record {
  name = codes "cookie";
  value = name ++ b'=' ∷ value;
  is_pseudo = false;
}

-- `headers[idx++] = …`, or `idx++` alone.
unfoldable pub add_cookie : Bool → List ℕ → List ℕ → CookieState → CookieState
add_cookie counts name value s =
    if counts
    then record s { idx = s.idx + 1 }
    else record s { idx = s.idx + 1; headers = s.headers ++ cookie_header name value ∷ [] }

-- The loop over `offset`, on the rest of the value. A round takes a byte at least, unless the maximum
-- is 0: then nothing is ever taken, and the loop does not end.
unfoldable pub value_rounds : ℕ → Bool → ℕ → List ℕ → List ℕ → CookieState → CookieState
unfolding add_cookie
value_rounds zero counts max name value s =
    if length value == 0 then s else record s { endless = true }
value_rounds (suc fuel) counts max name value s =
    let chunk = if ltb max (length value) then max else length value in
    let more =
      value_rounds fuel counts max name (drop chunk value)
        (add_cookie counts name (take chunk value) s) in
    if length value == 0 then s else more

unfoldable pub add_cookie_value : Bool → ℕ → List ℕ → List ℕ → CookieState → CookieState
unfolding value_rounds
add_cookie_value counts max name value s =
    if leb (length value) max
    then add_cookie counts name value s
    else value_rounds (length value) counts max name value s

abbrev pub skip_blanks : List ℕ → List ℕ
skip_blanks [] = []
skip_blanks (c ∷ cs) = if c == b' ' then skip_blanks cs else c ∷ cs

abbrev pub cut_blanks : List ℕ → List ℕ
cut_blanks [] = []
cut_blanks (c ∷ cs) =
    let rest = cut_blanks cs in
    if is_empty rest then (if c == b' ' then [] else c ∷ rest) else c ∷ rest

-- A token that holds no `=` is no cookie.
unfoldable pub process_token : Bool → ℕ → List ℕ → CookieState → CookieState
unfolding add_cookie_value split_at
process_token counts max token s = elim (split_at b'=' (cut_blanks (skip_blanks token))) [
  | none ↦ s
  | some (name, value) ↦ add_cookie_value counts max name value s
]

unfoldable pub token_rounds : ℕ → Bool → ℕ → List ℕ → CookieState → CookieState
unfolding process_token
token_rounds zero counts max p s = s
token_rounds (suc fuel) counts max p s =
    let last = process_token counts max p s in
    let more : List ℕ → List ℕ → CookieState =
      λ token rest. token_rounds fuel counts max rest (process_token counts max token s) in
    if length p == 0
    then s
    else elim (split_at b';' p) [ none ↦ last | some (token, rest) ↦ more token rest ]

-- A round takes a byte at least.
unfoldable pub process_cookies : CookieState → List ℕ → Bool → ℕ → CookieState
unfolding token_rounds
process_cookies s cookie counts max = token_rounds (length cookie) counts max cookie s
