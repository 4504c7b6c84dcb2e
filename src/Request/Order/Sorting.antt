-- ===== src/Request/Order/Sorting.antt =====
-- The order of the headers against a description by filters.
use http_request_client.Prelude.{
  ℕ, ◌≡◌, refl, sym, ap, ap₂, ◌∙◌, inl, inr, List, [], ◌∷◌, ◌++◌, some, Bool, true, false, not,
  ◌&&◌, map, arith, Bool-cases, if_true, if_false,
}
use mathlib.Core.List.{Perm}
use http_request_client.Prelude.Text.{codes}
use http_request_client.Errors.{err_request_header_order_key_missing_header, is_error}
use http_request_client.Request.Order.{
  Ordered, RequestHeader, has_missing, is_listed, is_missing, is_order_header, order_value,
  parse_keys, pseudo_headers, reorder_headers_by_order_key, slots_of, take_keys, take_named,
  unmarked,
}
use http_request_client.Request.Order.Filters.{
  with_name, by_keys, free_headers, take_named-free, take_keys-free, AllListed, connection,
  is_listed-append, by_keys-append, drop_order_key, pseudos, reals, order_header-real,
  slots_of-split, sorted, sorted-perm,
}

-- Whether every one of these headers is listed.
abbrev pub all_listed : List (List ℕ) → List RequestHeader → Bool
all_listed names [] = true
all_listed names (h ∷ hs) = is_listed names h.name && all_listed names hs

all_listed-AllListed :
    (names : List (List ℕ)) (hs : List RequestHeader)
    → all_listed names hs ≡ true
    → AllListed names hs
unfolding AllListed
all_listed-AllListed names [] h = tt
all_listed-AllListed names (x ∷ xs) h = ground (arith, all_listed-AllListed names xs)

missing-unmarked :
    (keys : List (List ℕ)) (hs : List RequestHeader)
    → has_missing keys (map unmarked hs) ≡ not (all_listed (keys ++ connection ∷ []) (reals hs))
unfolding has_missing is_missing
missing-unmarked keys [] = refl
missing-unmarked keys (h ∷ hs) =
    ground (arith, is_listed-append keys connection h.name, missing-unmarked keys hs)

missing-slots_of :
    (keys : List (List ℕ)) (hs : List RequestHeader)
    → has_missing keys (slots_of hs)
      ≡ not (all_listed (keys ++ connection ∷ []) (reals (drop_order_key hs)))
unfolding has_missing is_missing slots_of
missing-slots_of keys [] = refl
missing-slots_of keys (h ∷ hs) = elim (Bool-cases (is_order_header h)) [
  | inl key ↦ rw (key, order_header-real h key) (missing-unmarked keys hs)
  | inr other ↦
      rw other (ground (arith, is_listed-append keys connection h.name, missing-slots_of keys hs))
]

bad_order :
    (o : Ordered) (raw : List ℕ)
    → order_value o.headers ≡ some raw
    → has_missing (parse_keys raw) (slots_of o.headers) ≡ true
    → reorder_headers_by_order_key o
      ≡ record o { error = err_request_header_order_key_missing_header }
unfolding reorder_headers_by_order_key
bad_order o raw asked missing =
    rw (reorder_headers_by_order_key, asked)
      (if_true (has_missing (parse_keys raw) (slots_of o.headers)) _ _ missing)

placed_headers :
    (keys : List (List ℕ)) (hs : List RequestHeader)
    → (let taken = take_keys keys (slots_of hs) in
        pseudo_headers (slots_of hs) ++ (taken.0 ++ (take_named connection taken.1).0)
        ≡ sorted keys (drop_order_key hs))
placed_headers keys hs =
    let split = slots_of-split hs in
    let taken = take_keys-free keys (slots_of hs) in
    let last = take_named-free connection (take_keys keys (slots_of hs)).1 in
    ap₂ ◌++◌ split.0 (
      ap₂ ◌++◌ taken.0 (last.0 ∙ ap (with_name connection) taken.1)
      ∙ sym (by_keys-append keys connection (free_headers (slots_of hs)))
      ∙ ap (by_keys (keys ++ connection ∷ [])) split.1)

good_order :
    (o : Ordered) (raw : List ℕ)
    → order_value o.headers ≡ some raw
    → has_missing (parse_keys raw) (slots_of o.headers) ≡ false
    → is_error o.error ≡ false
    → reorder_headers_by_order_key o
      ≡ record o { headers = sorted (parse_keys raw) (drop_order_key o.headers) }
unfolding reorder_headers_by_order_key
good_order o raw asked complete fine =
    rw (reorder_headers_by_order_key, asked)
      (if_false (has_missing (parse_keys raw) (slots_of o.headers)) _ _ complete
        ∙ if_false (is_error o.error) _ _ fine
        ∙ ap (λ hs. record o { headers = hs }) (placed_headers (parse_keys raw) o.headers))

-- The parts of the result, for a request that asks for an order and has no error yet: there is an
-- error just if a header that is neither a pseudo header nor the order key nor "connection" is not
-- listed, and the headers then stay as they were. Otherwise the pseudo headers come first, then the
-- listed names in the order of the list, headers of one name as they stood, and "connection" at the
-- latest at the end; this is a permutation of all headers but the order key.
pub reorder_headers_by_order_key_lem :
    (o : Ordered) (raw : List ℕ)
    → order_value o.headers ≡ some raw
    → is_error o.error ≡ false
    → (let hs = drop_order_key o.headers in
        let names = parse_keys raw ++ codes "connection" ∷ [] in
        let after = reorder_headers_by_order_key o in
        (is_error after.error ≡ not (all_listed names (reals hs)))
        × (is_error after.error ≡ true → after.headers ≡ o.headers)
        × (is_error after.error ≡ false
            → (after.headers ≡ pseudos hs ++ by_keys names (reals hs)) × Perm after.headers hs))
reorder_headers_by_order_key_lem o raw asked fine =
    let hs = drop_order_key o.headers in
    let keys = parse_keys raw in
    let names = keys ++ connection ∷ [] in
    let missing = missing-slots_of keys o.headers in
    elim (Bool-cases (all_listed names (reals hs))) [
      | inl listed ↦
          let good = good_order o raw asked (missing ∙ ap not listed) fine in
          rw (good, listed)
            (
              fine,
              λ e. absurd cc,
              λ e. (refl, sorted-perm keys hs (all_listed-AllListed names (reals hs) listed)),
            )
      | inr unlisted ↦
          let bad = bad_order o raw asked (missing ∙ ap not unlisted) in
          rw (bad, unlisted) (refl, λ e. refl, λ e. absurd cc)
    ]
