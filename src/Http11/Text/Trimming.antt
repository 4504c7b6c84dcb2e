-- ===== src/Http11/Text/Trimming.antt =====
-- White space at the ends of a string.
use http_request_client.Prelude.{
  ℕ, ◌≡◌, refl, ap, ◌∙◌, List, [], ◌∷◌, ◌++◌, some, false, ◌==◌, if_false, if_true, none, ==_iff,
}
use http_request_client.Http11.Text.{cut_spaces, is_space_char, skip_spaces, split_at, trim}

-- No white space stands at the end.
abbrev pub EndsBare : List ℕ → Type 0
EndsBare [] = Unit
EndsBare (c ∷ []) = is_space_char c ≡ false
EndsBare (c ∷ e ∷ cs) = EndsBare (e ∷ cs)

-- No white space stands at either end.
abbrev pub IsBare : List ℕ → Type 0
IsBare [] = Unit
IsBare (c ∷ cs) = (is_space_char c ≡ false) × EndsBare (c ∷ cs)

cut_spaces-bare : (s : List ℕ) → EndsBare s → cut_spaces s ≡ s
unfolding cut_spaces
cut_spaces-bare [] h = refl
cut_spaces-bare (c ∷ []) h = if_false (is_space_char c) _ _ h
cut_spaces-bare (c ∷ e ∷ cs) h = rw (cut_spaces-bare (e ∷ cs) h) refl

pub trim-bare : (s : List ℕ) → IsBare s → trim s ≡ s
unfolding trim skip_spaces
trim-bare [] h = refl
trim-bare (c ∷ cs) h =
    ap cut_spaces (if_false (is_space_char c) _ _ h.0) ∙ cut_spaces-bare (c ∷ cs) h.1

-- One space before it does not matter.
pub trim-space : (s : List ℕ) → IsBare s → trim (b' ' ∷ s) ≡ s
unfolding trim skip_spaces
trim-space s h = trim-bare s h

-- A string without a separator, before it.
abbrev pub Lacks : ℕ → List ℕ → Type 0
Lacks separator [] = Unit
Lacks separator (c ∷ cs) = ((c == separator) ≡ false) × Lacks separator cs

pub split_at-Lacks :
    (separator : ℕ) (before behind : List ℕ)
    → Lacks separator before
    → split_at separator (before ++ separator ∷ behind) ≡ some (before, behind)
unfolding split_at
split_at-Lacks separator [] behind h =
    if_true (separator == separator) _ _ ((==_iff separator separator).1 refl)
split_at-Lacks separator (c ∷ cs) behind h = rw (h.0, split_at-Lacks separator cs behind h.1) refl

pub split_at-Lacks-none :
    (separator : ℕ) (s : List ℕ) → Lacks separator s → split_at separator s ≡ none
unfolding split_at
split_at-Lacks-none separator [] h = refl
split_at-Lacks-none separator (c ∷ cs) h = rw (h.0, split_at-Lacks-none separator cs h.1) refl
