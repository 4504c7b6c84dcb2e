-- ===== src/Request/Cookies/Counting.antt =====
-- The two runs of processCookies: the array that is allocated for the count holds what is filled in.
use http_request_client.Prelude.{
  ℕ, zero, suc, ◌+◌, ◌≡◌, ◌≤◌, ◌<◌, refl, inl, inr, List, [], ◌∷◌, Bool, true, false, leb, ltb,
  Bool-cases, if_true, take, drop, length-drop, ◌==◌, if◌then◌else◌, length, arith, Option-cases,
  length-append,
}
use http_request_client.Http11.Text.{split_at}
use http_request_client.Request.Order.{RequestHeader}
use http_request_client.Request.Cookies.{
  CookieState, add_cookie, add_cookie_value, cookie_header, cut_blanks, process_cookies,
  process_token, skip_blanks, token_rounds, value_rounds,
}

-- A counting run from 0 and a filling run behind `base` headers stand at the same place.
record Agrees (base : ℕ) (counting filling : CookieState) : Type 0 where
  same : filling.idx ≡ base + counting.idx
  filled : filling.idx ≡ length filling.headers

pick-Agrees :
    {base : ℕ} {c f c' f' : CookieState} (test : Bool)
    → Agrees base c f
    → Agrees base c' f'
    → Agrees base (if test then c else c') (if test then f else f')
pick-Agrees true p q = p
pick-Agrees false p q = q

add-Agrees :
    {base : ℕ} (c f : CookieState) (name value : List ℕ)
    → Agrees base c f
    → Agrees base (add_cookie true name value c) (add_cookie false name value f)
unfolding add_cookie
add-Agrees {base} c f name value p = record {
  same = omega (arith, p.same);
  filled = omega (arith, p.filled, length-append f.headers (cookie_header name value ∷ []));
}

rounds-Agrees :
    {base : ℕ} (fuel max : ℕ) (name value : List ℕ) (c f : CookieState)
    → Agrees base c f
    → Agrees base
        (value_rounds fuel true max name value c)
        (value_rounds fuel false max name value f)
unfolding value_rounds
rounds-Agrees zero max name value c f p =
    pick-Agrees (length value == 0) p (record { same = p.same; filled = p.filled })
rounds-Agrees (suc fuel) max name value c f p =
    pick-Agrees (length value == 0) p (rounds-Agrees fuel max name _ _ _ (add-Agrees c f name _ p))

value-Agrees :
    {base : ℕ} (max : ℕ) (name value : List ℕ) (c f : CookieState)
    → Agrees base c f
    → Agrees base (add_cookie_value true max name value c) (add_cookie_value false max name value f)
unfolding add_cookie_value
value-Agrees max name value c f p =
    pick-Agrees (leb (length value) max) (add-Agrees c f name value p)
      (rounds-Agrees (length value) max name value c f p)

token-Agrees :
    {base : ℕ} (max : ℕ) (token : List ℕ) (c f : CookieState)
    → Agrees base c f
    → Agrees base (process_token true max token c) (process_token false max token f)
unfolding process_token
token-Agrees max token c f p =
    elim (Option-cases (split_at b'=' (cut_blanks (skip_blanks token)))) [
      | inl e ↦ rw (process_token, e) p
      | inr (parts, e) ↦ rw (process_token, e) (value-Agrees max parts.0 parts.1 c f p)
    ]

tokens-Agrees :
    {base : ℕ} (fuel max : ℕ) (p : List ℕ) (c f : CookieState)
    → Agrees base c f
    → Agrees base (token_rounds fuel true max p c) (token_rounds fuel false max p f)
unfolding token_rounds
tokens-Agrees zero max p c f h = h
tokens-Agrees (suc fuel) max p c f h = elim (Option-cases (split_at b';' p)) [
  | inl e ↦ rw (token_rounds, e) (pick-Agrees (length p == 0) h (token-Agrees max p c f h))
  | inr (parts, e) ↦
      rw (token_rounds, e)
        (pick-Agrees (length p == 0) h
          (tokens-Agrees fuel max parts.1 _ _ (token-Agrees max parts.0 c f h)))
]

-- A run that ends.
record IsEnding (s : CookieState) : Type 0 where
  ends : s.endless ≡ false

pick-IsEnding :
    {s t : CookieState} (test : Bool) → IsEnding s → IsEnding t → IsEnding (if test then s else t)
pick-IsEnding true p q = p
pick-IsEnding false p q = q

add-IsEnding :
    (counts : Bool) (name value : List ℕ) (s : CookieState)
    → IsEnding s
    → IsEnding (add_cookie counts name value s)
unfolding add_cookie
add-IsEnding true name value s p = record { ends = p.ends }
add-IsEnding false name value s p = record { ends = p.ends }

rounds-IsEnding :
    (fuel : ℕ) (counts : Bool) (max : ℕ) (name value : List ℕ) (s : CookieState)
    → 0 < max
    → length value ≤ fuel
    → IsEnding s
    → IsEnding (value_rounds fuel counts max name value s)
unfolding value_rounds
rounds-IsEnding zero counts max name value s pos h p =
    rw (if_true (length value == 0) s (record s { endless = true }) (ground arith)) p
rounds-IsEnding (suc fuel) counts max name value s pos h p = elim (Bool-cases (length value == 0)) [
  | inl none_left ↦ rw none_left p
  | inr more ↦
      let chunk = if ltb max (length value) then max else length value in
      rw more (
        rounds-IsEnding fuel counts max name (drop chunk value) _ pos
          (let some_taken : 0 < chunk = ground arith in
            omega (arith, length-drop chunk value, some_taken))
          (add-IsEnding counts name (take chunk value) s p))
]

token-IsEnding :
    (counts : Bool) (max : ℕ) (token : List ℕ) (s : CookieState)
    → 0 < max
    → IsEnding s
    → IsEnding (process_token counts max token s)
unfolding process_token add_cookie_value
token-IsEnding counts max token s pos p =
    elim (Option-cases (split_at b'=' (cut_blanks (skip_blanks token)))) [
      | inl e ↦ rw (process_token, e) p
      | inr (parts, e) ↦
          rw (process_token, e)
            (pick-IsEnding (leb (length parts.1) max) (add-IsEnding counts parts.0 parts.1 s p)
              (rounds-IsEnding (length parts.1) counts max parts.0 parts.1 s pos (omega arith) p))
    ]

tokens-IsEnding :
    (fuel : ℕ) (counts : Bool) (max : ℕ) (p : List ℕ) (s : CookieState)
    → 0 < max
    → IsEnding s
    → IsEnding (token_rounds fuel counts max p s)
unfolding token_rounds
tokens-IsEnding zero counts max p s pos h = h
tokens-IsEnding (suc fuel) counts max p s pos h = elim (Option-cases (split_at b';' p)) [
  | inl e ↦
      rw (token_rounds, e) (pick-IsEnding (length p == 0) h (token-IsEnding counts max p s pos h))
  | inr (parts, e) ↦
      rw (token_rounds, e)
        (pick-IsEnding (length p == 0) h (
          tokens-IsEnding fuel counts max parts.1 _ pos
            (token-IsEnding counts max parts.0 s pos h)))
]

-- For every cookie text and every maximum above 0, the run that counts the headers of the text and
-- the run that fills them in behind other headers both end, and agree: as many headers are filled in
-- as were counted for the same text.
pub process_cookies_count :
    (max : ℕ) (cookie : List ℕ) (headers : List RequestHeader)
    → 0 < max
    → (let counted =
          process_cookies (record { idx = 0; headers = []; endless = false }) cookie true max in
        let filled =
          process_cookies
            (record { idx = length headers; headers = headers; endless = false })
            cookie
            false
            max in
        (counted.endless ≡ false)
        × (filled.endless ≡ false)
        × (filled.idx ≡ length filled.headers)
        × (filled.idx ≡ length headers + counted.idx))
unfolding process_cookies
process_cookies_count max cookie headers pos =
    let counting : CookieState = record { idx = 0; headers = []; endless = false } in
    let filling : CookieState = record {
      idx = length headers;
      headers = headers;
      endless = false;
    } in
    let agrees =
      tokens-Agrees {base = length headers} (length cookie) max cookie counting filling
        (record { same = omega arith; filled = refl }) in
    (
      (tokens-IsEnding (length cookie) true max cookie counting pos (record { ends = refl })).ends,
      (tokens-IsEnding (length cookie) false max cookie filling pos (record { ends = refl })).ends,
      agrees.filled,
      agrees.same,
    )
