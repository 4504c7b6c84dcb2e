-- ===== src/Request/Cookies/Values.antt =====
-- What processCookies makes of cookies that are written with "; " between them.
use http_request_client.Prelude.{
  ℕ, ◌≤◌, ◌<◌, ◌≡◌, List, [], ◌∷◌, ◌++◌, false, ◌==◌, length, map, All,
}
use http_request_client.Http2.Frames.Reading.{concat}
use http_request_client.Http11.Text.Trimming.{Lacks}
use http_request_client.Request.Order.{RequestHeader}
use http_request_client.Request.Cookies.{CookieState, cookie_header}

pub record Cookie : Type 0 where
  pub name : List ℕ
  pub value : List ℕ

abbrev pub text_of : Cookie → List ℕ
text_of c = c.name ++ b'=' ∷ c.value

-- The cookies with "; " between them.
abbrev pub join : List Cookie → List ℕ
join [] = []
join (c ∷ []) = text_of c
join (c ∷ e ∷ cs) = text_of c ++ b';' ∷ b' ' ∷ join (e ∷ cs)

abbrev pub StartsBare : List ℕ → Type 0
StartsBare [] = Unit
StartsBare (c ∷ cs) = (c == b' ') ≡ false

abbrev pub EndsBare : List ℕ → Type 0
EndsBare [] = Unit
EndsBare (c ∷ []) = (c == b' ') ≡ false
EndsBare (c ∷ e ∷ cs) = EndsBare (e ∷ cs)

pub record IsCookie (c : Cookie) : Type 0 where
  pub name_lacks : Lacks b'=' c.name
  pub text_lacks : Lacks b';' (text_of c)
  pub starts_bare : StartsBare (text_of c)
  pub ends_bare : EndsBare (text_of c)

-- A value in pieces that a header can carry.
pub record IsPieces (max : ℕ) (value : List ℕ) (pieces : List (List ℕ)) : Type 0 where
  pub whole : concat pieces ≡ value
  pub short : All (λ (piece : List ℕ). length piece ≤ max) pieces

-- These headers carry these cookies.
pub data Carries (max : ℕ) : List Cookie → List RequestHeader → Type 0 where
  none_left : Carries max [] []
  and_then :
      (c : Cookie) (pieces : List (List ℕ)) {cs : List Cookie} {hs : List RequestHeader}
      → IsPieces max c.value pieces
      → 0 < length pieces
      → Carries max cs hs
      → Carries max (c ∷ cs) (map (cookie_header c.name) pieces ++ hs)

-- The pieces that a loop adds.
record IsAdded (max : ℕ) (name value : List ℕ) (before after : CookieState) : Type 0 where
  pieces : List (List ℕ)
  split : IsPieces max value pieces
  some_piece : 0 < length value → 0 < length pieces
  headers : after.headers ≡ before.headers ++ map (cookie_header name) pieces

-- A cookie, possibly with one blank before it.
data Blank : List ℕ → Type 0 where
  without : Blank []
  with_one : Blank (b' ' ∷ [])

-- What a run adds for these cookies.
pub record IsCarried (max : ℕ) (cs : List Cookie) (before after : CookieState) : Type 0 where
  pub added : List RequestHeader
  pub headers_are : after.headers ≡ before.headers ++ added
  pub carries : Carries max cs added
