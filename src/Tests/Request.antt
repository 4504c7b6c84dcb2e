-- ===== src/Tests/Request.antt =====
-- Cookies and the order of headers on concrete requests.
use http_request_client.Prelude.{
  ℕ, ◌+◌, ◌≡◌, refl, List, [], ◌∷◌, ◌++◌, some, true, false, not, length, arith,
}
use mathlib.Core.List.{Perm}
use http_request_client.Prelude.Text.{codes}
use http_request_client.Errors.{err_none, is_error}
use http_request_client.Request.Order.{
  Ordered, RequestHeader, order_value, parse_keys, reorder_headers_by_order_key,
}
use http_request_client.Request.Order.Sorting.{all_listed, reorder_headers_by_order_key_lem}
use http_request_client.Request.Order.Filters.{by_keys, drop_order_key, pseudos, reals}
use http_request_client.Request.Cookies.{process_cookies}
use http_request_client.Request.Cookies.Counting.{process_cookies_count}
use http_request_client.Request.Cookies.Values.{Cookie}

abbrev real : List ℕ → List ℕ → RequestHeader
real name value = record { name = name; value = value; is_pseudo = false }

abbrev headers : List RequestHeader
headers =
    real (codes "Accept") (codes "x")
    ∷ (record { name = codes ":path"; value = codes "/"; is_pseudo = true })
    ∷ real (codes "x-headerorderkey") (codes "Cookie, ,accept")
    ∷ real (codes "Connection") (codes "close")
    ∷ real (codes "cookie") (codes "a=1")
    ∷ real (codes "cookie") (codes "b=2")
    ∷ []

abbrev basket : Ordered
basket = record { headers = headers; error = err_none }

headers-order_value : order_value headers ≡ some (codes "Cookie, ,accept")
unfolding order_value
headers-order_value = refl

reorder_headers_by_order_key_lem_example :
    (let hs = drop_order_key headers in
      let names = parse_keys (codes "Cookie, ,accept") ++ codes "connection" ∷ [] in
      let after = reorder_headers_by_order_key basket in
      (is_error after.error ≡ not (all_listed names (reals hs)))
      × (is_error after.error ≡ true → after.headers ≡ headers)
      × (is_error after.error ≡ false
          → (after.headers ≡ pseudos hs ++ by_keys names (reals hs)) × Perm after.headers hs))
reorder_headers_by_order_key_lem_example =
    reorder_headers_by_order_key_lem basket (codes "Cookie, ,accept") headers-order_value refl

process_cookies_count_example :
    (let counted =
        process_cookies
          (record { idx = 0; headers = []; endless = false })
          (codes "a=12345; b;c=")
          true
          2 in
      let filled =
        process_cookies
          (record { idx = length headers; headers = headers; endless = false })
          (codes "a=12345; b;c=")
          false
          2 in
      (counted.endless ≡ false)
      × (filled.endless ≡ false)
      × (filled.idx ≡ length filled.headers)
      × (filled.idx ≡ length headers + counted.idx))
process_cookies_count_example =
    process_cookies_count 2 (codes "a=12345; b;c=") headers (omega arith)

abbrev cookies : List Cookie
cookies =
    (record { name = codes "a"; value = codes "123" })
    ∷ (record { name = codes "b"; value = [] })
    ∷ []
