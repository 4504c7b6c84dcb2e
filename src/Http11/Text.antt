-- ===== src/Http11/Text.antt =====
-- The C string functions that src/Http11ResponseHandler.c uses, on strings as lists of bytes.
pub mod Trimming
use http_request_client.Prelude.{
  ℕ, zero, suc, ◌+◌, ◌-◌, ◌*◌, ◌^◌, List, [], ◌∷◌, Option, none, some, Bool, true, false, not, ◌&&◌,
  ◌||◌, ltb, leb, ◌==◌, if◌then◌else◌, length,
}
use http_request_client.Prelude.Text.{to_lower, is_space}

-- What a `char *` to these bytes is: everything before the first NUL.
unfoldable pub c_string : List ℕ → List ℕ
c_string [] = []
c_string (x ∷ xs) = if x == 0 then [] else x ∷ c_string xs

-- `strncasecmp(s, prefix, strlen(prefix)) == 0`.
unfoldable pub starts_with_ci : List ℕ → List ℕ → Bool
unfolding to_lower
starts_with_ci s [] = true
starts_with_ci [] (y ∷ ys) = false
starts_with_ci (x ∷ xs) (y ∷ ys) = to_lower x == to_lower y && starts_with_ci xs ys

-- `strncmp(s, prefix, strlen(prefix)) == 0`.
unfoldable pub starts_with : List ℕ → List ℕ → Bool
starts_with s [] = true
starts_with [] (y ∷ ys) = false
starts_with (x ∷ xs) (y ∷ ys) = x == y && starts_with xs ys

-- Whether `containsCI` finds the needle.
unfoldable pub contains_ci : List ℕ → List ℕ → Bool
unfolding starts_with_ci
contains_ci [] needle = starts_with_ci [] needle
contains_ci (x ∷ xs) needle = starts_with_ci (x ∷ xs) needle || contains_ci xs needle

-- `isSpaceChar`: NUL is no white space.
unfoldable pub is_space_char : ℕ → Bool
unfolding is_space
is_space_char c = not (c == 0) && is_space c

unfoldable pub skip_spaces : List ℕ → List ℕ
unfolding is_space_char
skip_spaces [] = []
skip_spaces (x ∷ xs) = if is_space_char x then skip_spaces xs else x ∷ xs

abbrev pub is_empty : List ℕ → Bool
is_empty [] = true
is_empty (x ∷ xs) = false

-- The loop of `trim` that cuts white space from the end.
unfoldable pub cut_spaces : List ℕ → List ℕ
unfolding is_space_char
cut_spaces [] = []
cut_spaces (x ∷ xs) =
    let rest = cut_spaces xs in if is_empty rest && is_space_char x then [] else x ∷ rest

unfoldable pub trim : List ℕ → List ℕ
unfolding skip_spaces cut_spaces
trim s = cut_spaces (skip_spaces s)

-- `strchr`: what stands before and behind the first `c`.
unfoldable pub split_at : ℕ → List ℕ → Option (List ℕ × List ℕ)
split_at c [] = none
split_at c (x ∷ xs) =
    if x == c
    then some ([], xs)
    else elim (split_at c xs) [ none ↦ none | some (before, behind) ↦ some (x ∷ before, behind) ]

-- The value of a digit; 36 for any other byte.
unfoldable pub digit_value : ℕ → ℕ
unfolding to_lower
digit_value c =
    if leb b'0' c && leb c b'9'
    then c - b'0'
    else if leb b'a' (to_lower c) && leb (to_lower c) b'z'
    then to_lower c - b'a' + 10
    else 36

unfoldable pub read_digits : ℕ → ℕ → List ℕ → ℕ
unfolding digit_value
read_digits base acc [] = acc
read_digits base acc (c ∷ cs) =
    if ltb (digit_value c) base then read_digits base (acc * base + digit_value c) cs else acc

-- The prefix `0x` of base 16, if a digit follows.
unfoldable pub skip_prefix : ℕ → List ℕ → List ℕ
unfolding digit_value to_lower
skip_prefix base (zero' ∷ x ∷ digit ∷ cs) =
    if base == 16 && (zero' == b'0' && (to_lower x == b'x' && ltb (digit_value digit) 16))
    then digit ∷ cs
    else zero' ∷ x ∷ digit ∷ cs
skip_prefix base cs = cs

-- What `strtol` and `strtoll` return, with 64 bits.
pub record Long : Type 0 where
  pub negative : Bool
  pub magnitude : ℕ

abbrev pub limited : ℕ → ℕ → ℕ
limited bound n = if ltb bound n then bound else n

unfoldable pub str_to_long : ℕ → List ℕ → Long
unfolding skip_spaces is_space skip_prefix read_digits
str_to_long base s = elim (skip_spaces s) [
  | [] ↦ record { negative = false; magnitude = 0 }
  | sign ∷ cs ↦
      if sign == b'-'
      then record {
        negative = true;
        magnitude = limited (2 ^ 63) (read_digits base 0 (skip_prefix base cs));
      }
      else record {
        negative = false;
        magnitude =
            limited (2 ^ 63 - 1)
              (read_digits base 0 (skip_prefix base (if sign == b'+' then cs else sign ∷ cs)));
      }
]

-- The test `n < 0`.
unfoldable pub is_negative : Long → Bool
is_negative n = n.negative && not (n.magnitude == 0)
