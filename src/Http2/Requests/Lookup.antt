-- ===== src/Http2/Requests/Lookup.antt =====
-- The request's table of header names against the decoder's.
use http_request_client.Prelude.{
  ℕ, ◌≤◌, ◌<◌, ◌≡◌, refl, sym, ap, ap₂, ◌∙◌, inl, inr, List, [], ◌∷◌, Option, some, Bool, true,
  ◌&&◌, ltb, leb, ◌==◌, get_elem?, arith, Bool-cases, if_true, if_false, ltb→lt, leb→le, ==_iff,
}
use mathlib.Core.Path.{subst}
use http_request_client.Prelude.Text.{str_eq, str_case_eq}
use http_request_client.Hpack.Table.{entry_or}
use http_request_client.Hpack.Table.Static.{response_header_static_table}
use http_request_client.Http2.Requests.{StaticEntry, find_entry, request_header_static_table}

-- The name of an entry of the static table.
abbrev pub static_name : ℕ → List ℕ
static_name index =
    (entry_or (get_elem? response_header_static_table index)
      (record { name = []; value = [] })).name

-- Every entry of the request's table names the entry of the decoder's table at its index.
fits : StaticEntry → Bool
fits e = str_eq e.name (static_name e.index) && (ltb 0 e.index && leb e.index 61)

all_fit : List StaticEntry → Bool
all_fit [] = true
all_fit (e ∷ es) = fits e && all_fit es

table_fits : all_fit request_header_static_table ≡ true
unfolding all_fit fits request_header_static_table response_header_static_table str_eq
table_fits = refl

both : (a b : Bool) → (a && b) ≡ true → (a ≡ true) × (b ≡ true)
both a b h = ground arith

str_eq_sound : (xs ys : List ℕ) → str_eq xs ys ≡ true → xs ≡ ys
unfolding str_eq
str_eq_sound [] [] h = refl
str_eq_sound [] (y ∷ ys) h = cc
str_eq_sound (x ∷ xs) [] h = cc
str_eq_sound (x ∷ xs) (y ∷ ys) h =
    let parts = both (x == y) (str_eq xs ys) h in
    ap₂ ◌∷◌ ((==_iff x y).0 parts.0) (str_eq_sound xs ys parts.1)

-- An index that is found.
pub record IsFound (name : List ℕ) (index : ℕ) : Type 0 where
  pub low : 0 < index
  pub high : index ≤ 61
  pub same_name : str_case_eq name (static_name index) ≡ true

some_injective : {m n : ℕ} → (let o : Option ℕ = some m in o) ≡ some n → m ≡ n
some_injective h = cc

find_entry-IsFound :
    (es : List StaticEntry) (name : List ℕ) (index : ℕ)
    → all_fit es ≡ true
    → find_entry es name ≡ some index
    → IsFound name index
unfolding all_fit fits find_entry
find_entry-IsFound [] name index h found = cc
find_entry-IsFound (e ∷ es) name index h found =
    let parts = both (fits e) (all_fit es) h in
    let fit = both (str_eq e.name (static_name e.index)) _ parts.0 in
    let bounds = both (ltb 0 e.index) (leb e.index 61) fit.1 in
    elim (Bool-cases (str_case_eq name e.name)) [
      | inl same ↦
          let here : e.index ≡ index =
            some_injective
              (sym (if_true (str_case_eq name e.name) (some e.index) _ same) ∙ found) in
          subst (IsFound name) here (record {
            low = ltb→lt 0 e.index bounds.0;
            high = leb→le e.index 61 bounds.1;
            same_name = ap (str_case_eq name) (sym (str_eq_sound e.name _ fit.0)) ∙ same;
          })
      | inr other ↦
          find_entry-IsFound es name index parts.1
            (sym (if_false (str_case_eq name e.name) (some e.index) _ other) ∙ found)
    ]

pub request_header_static_table-IsFound :
    (name : List ℕ) (index : ℕ)
    → find_entry request_header_static_table name ≡ some index
    → IsFound name index
request_header_static_table-IsFound name index =
    find_entry-IsFound request_header_static_table name index table_fits
