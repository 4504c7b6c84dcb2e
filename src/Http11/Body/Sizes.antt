-- ===== src/Http11/Body/Sizes.antt =====
-- The size line of a chunk.
use http_request_client.Prelude.{
  ℕ, ◌+◌, ◌-◌, ◌*◌, ◌^◌, ◌<◌, ◌≡◌, refl, ap, ◌∙◌, List, [], ◌∷◌, ◌++◌, false, ◌==◌, ltb, All, arith,
  if_true, if_false, le→ltb, lt→ltb, append-nil,
}
use http_request_client.Prelude.Text.{is_space, to_lower}
use http_request_client.Http11.Text.{
  digit_value, is_space_char, limited, read_digits, skip_prefix, skip_spaces, split_at, str_to_long,
  trim,
}
use http_request_client.Http11.Text.Trimming.{
  EndsBare, IsBare, Lacks, split_at-Lacks, split_at-Lacks-none, trim-bare,
}
use http_request_client.Http11.Body.{chunk_size, size_text}

abbrev pub IsDigitOf : ℕ → ℕ → Type 0
IsDigitOf base c = digit_value c < base

-- What digits stand for, the highest first.
abbrev pub digits_number : ℕ → ℕ → List ℕ → ℕ
digits_number base acc [] = acc
digits_number base acc (c ∷ cs) = digits_number base (acc * base + digit_value c) cs

read_digits-number :
    (base acc : ℕ) (digits : List ℕ)
    → All (IsDigitOf base) digits
    → read_digits base acc digits ≡ digits_number base acc digits
unfolding read_digits
read_digits-number base acc [] h = refl
read_digits-number base acc (c ∷ cs) h =
    if_true _ _ _ (lt→ltb _ base h.0) ∙ read_digits-number base (acc * base + digit_value c) cs h.1

digit_is_plain :
    (c : ℕ)
    → IsDigitOf 16 c
    → ((c == b';') ≡ false)
      × (is_space_char c ≡ false)
      × ((to_lower c == b'x') ≡ false)
      × ((c == b'-') ≡ false)
      × ((c == b'+') ≡ false)
unfolding digit_value to_lower is_space_char is_space
digit_is_plain c h = ground arith

digits-Lacks : (digits : List ℕ) → All (IsDigitOf 16) digits → Lacks b';' digits
digits-Lacks [] h = tt
digits-Lacks (c ∷ cs) h = ((digit_is_plain c h.0).0, digits-Lacks cs h.1)

digits-EndsBare : (digits : List ℕ) → All (IsDigitOf 16) digits → EndsBare digits
digits-EndsBare [] h = tt
digits-EndsBare (c ∷ []) h = (digit_is_plain c h.0).1
digits-EndsBare (c ∷ e ∷ cs) h = digits-EndsBare (e ∷ cs) h.1

digits-IsBare : (digits : List ℕ) → All (IsDigitOf 16) digits → IsBare digits
digits-IsBare [] h = tt
digits-IsBare (c ∷ cs) h = ((digit_is_plain c h.0).1, digits-EndsBare (c ∷ cs) h)

-- What may follow the digits: nothing, or an extension behind a semicolon.
abbrev pub IsExtension : List ℕ → Type 0
IsExtension [] = Unit
IsExtension (c ∷ cs) = c ≡ b';'

size_text-digits :
    (digits extension : List ℕ)
    → All (IsDigitOf 16) digits
    → IsExtension extension
    → size_text (digits ++ extension) ≡ digits
unfolding size_text
size_text-digits digits [] hex h =
    rw
      (
        size_text,
        ap (split_at b';') (append-nil digits),
        split_at-Lacks-none b';' digits (digits-Lacks digits hex),
      )
      (append-nil digits)
size_text-digits digits (c ∷ cs) hex h =
    rw (h, size_text, split_at-Lacks b';' digits cs (digits-Lacks digits hex)) refl

skip_prefix-digits : (digits : List ℕ) → All (IsDigitOf 16) digits → skip_prefix 16 digits ≡ digits
unfolding skip_prefix
skip_prefix-digits [] h = refl
skip_prefix-digits (c ∷ []) h = refl
skip_prefix-digits (c ∷ e ∷ []) h = refl
skip_prefix-digits (c ∷ e ∷ x ∷ cs) h = ground (arith, (digit_is_plain e h.1.0).2)

no_prefix : (digits : List ℕ) → skip_prefix 10 digits ≡ digits
unfolding skip_prefix
no_prefix [] = refl
no_prefix (c ∷ []) = refl
no_prefix (c ∷ e ∷ []) = refl
no_prefix (c ∷ e ∷ x ∷ cs) = refl

limited-small : (n : ℕ) → n < 2 ^ 63 → limited (2 ^ 63 - 1) n ≡ n
limited-small n h = if_false (ltb (2 ^ 63 - 1) n) _ _ (le→ltb (2 ^ 63 - 1) n (omega arith))

-- A number without a sign and without a prefix.
str_to_long-digits :
    (base c : ℕ) (cs : List ℕ)
    → digit_value c < 16
    → skip_prefix base (c ∷ cs) ≡ c ∷ cs
    → All (IsDigitOf base) (c ∷ cs)
    → digits_number base 0 (c ∷ cs) < 2 ^ 63
    → str_to_long base (c ∷ cs)
      ≡ record { negative = false; magnitude = digits_number base 0 (c ∷ cs) }
unfolding str_to_long skip_spaces
str_to_long-digits base c cs digit bare clean small =
    let plain = digit_is_plain c digit in
    let value : read_digits base 0 (skip_prefix base (c ∷ cs)) ≡ digits_number base 0 (c ∷ cs) =
      ap (read_digits base 0) bare ∙ read_digits-number base 0 (c ∷ cs) clean in
    rw (str_to_long, plain.1, plain.3, plain.4, value)
      (ap (λ n. record { negative = false; magnitude = n }) (limited-small _ small))

pub decimal-digits :
    (c : ℕ) (cs : List ℕ)
    → All (IsDigitOf 10) (c ∷ cs)
    → digits_number 10 0 (c ∷ cs) < 2 ^ 63
    → str_to_long 10 (c ∷ cs) ≡ record { negative = false; magnitude = digits_number 10 0 (c ∷ cs) }
decimal-digits c cs clean small =
    str_to_long-digits 10 c cs (omega (arith, clean.0)) (no_prefix (c ∷ cs)) clean small

pub chunk_size-digits :
    (c : ℕ) (cs extension : List ℕ)
    → All (IsDigitOf 16) (c ∷ cs)
    → IsExtension extension
    → digits_number 16 0 (c ∷ cs) < 2 ^ 63
    → chunk_size ((c ∷ cs) ++ extension)
      ≡ record { negative = false; magnitude = digits_number 16 0 (c ∷ cs) }
unfolding chunk_size
chunk_size-digits c cs extension hex h small =
    ap (λ s. str_to_long 16 (trim s)) (size_text-digits (c ∷ cs) extension hex h)
    ∙ ap (str_to_long 16) (trim-bare (c ∷ cs) (digits-IsBare (c ∷ cs) hex))
    ∙ str_to_long-digits 16 c cs hex.0 (skip_prefix-digits (c ∷ cs) hex) hex small
