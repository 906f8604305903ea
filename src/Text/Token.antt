-- ===== src/Text/Token.antt =====
-- Names that several spellings share: `s.strip().lower().replace("_", "-")`, and a table of aliases.
use omnicursor.Prelude.{
  ℕ, ◌≡◌, refl, ap, ◌∙◌, ◌⊎◌, Bool, true, false, not, ◌&&◌, List, [], ◌∷◌, ◌==◌, if◌then◌else◌,
  arith, and-eq-true, all, inl, inr, Bool-cases,
}
use omnicursor.Text.{
  Text, same, same_iff, is_empty, is_space, is_upper, to_lower, lower, strip, lstrip, rstrip,
  replace_char,
}

unfoldable pub name_token : Text → Text
name_token s = replace_char b'_' b'-' (lower (strip s))

-- `table.get(token, token)`
unfoldable pub alias_of : List (Text × Text) → Text → Text
alias_of [] token = token
alias_of ((k, v) ∷ table) token = if same k token then v else alias_of table token

-- a character that the token function leaves as it is
unfoldable pub is_plain : ℕ → Bool
is_plain c = not (is_upper c) && not (c == b'_')

-- the first character is none of white space
abbrev pub no_lead : Text → Bool
no_lead [] = true
no_lead (c ∷ s) = not (is_space c)

-- the last character is none of white space
abbrev pub no_trail : Text → Bool
no_trail [] = true
no_trail (c ∷ []) = not (is_space c)
no_trail (c ∷ d ∷ s) = no_trail (d ∷ s)

plain-char : (c : ℕ) → is_plain (if to_lower c == b'_' then b'-' else to_lower c) ≡ true
unfolding is_plain to_lower is_upper
plain-char c = ground arith

space-char : (c : ℕ) → is_space (if to_lower c == b'_' then b'-' else to_lower c) ≡ is_space c
unfolding is_space to_lower is_upper
space-char c = ground arith

plain-fixed : (c : ℕ) → is_plain c ≡ true → (if to_lower c == b'_' then b'-' else to_lower c) ≡ c
unfolding is_plain to_lower is_upper
plain-fixed c h = ground (arith, h)

abbrev fold_char : Text → Text
fold_char s = replace_char b'_' b'-' (lower s)

all-plain : (s : Text) → all is_plain (fold_char s) ≡ true
unfolding lower replace_char
all-plain [] = refl
all-plain (c ∷ s) = rw (plain-char c) (all-plain s)

fold_char-plain : (s : Text) → all is_plain s ≡ true → fold_char s ≡ s
unfolding lower replace_char
fold_char-plain [] h = refl
fold_char-plain (c ∷ s) h = ground (arith, h, plain-fixed c, fold_char-plain s)

no_lead-fold_char : (s : Text) → no_lead (fold_char s) ≡ no_lead s
unfolding lower replace_char
no_lead-fold_char [] = refl
no_lead-fold_char (c ∷ s) = ap not (space-char c)

no_trail-fold_char : (s : Text) → no_trail (fold_char s) ≡ no_trail s
unfolding lower replace_char
no_trail-fold_char [] = refl
no_trail-fold_char (c ∷ []) = ap not (space-char c)
no_trail-fold_char (c ∷ d ∷ s) = no_trail-fold_char (d ∷ s)

no_lead-lstrip : (s : Text) → no_lead (lstrip s) ≡ true
unfolding lstrip
no_lead-lstrip [] = refl
no_lead-lstrip (c ∷ s) = elim (Bool-cases (is_space c)) [
  | inl e ↦ rw (e, lstrip) (no_lead-lstrip s)
  | inr e ↦ rw (e, lstrip) (ap not e)
]

no_trail-cons :
    (c : ℕ) (t : Text)
    → no_trail t ≡ true
    → (is_space c && is_empty t) ≡ false
    → no_trail (c ∷ t) ≡ true
unfolding is_empty
no_trail-cons c [] h e = ground (arith, e)
no_trail-cons c (d ∷ t) h e = h

no_trail-rstrip : (s : Text) → no_trail (rstrip s) ≡ true
unfolding rstrip
no_trail-rstrip [] = refl
no_trail-rstrip (c ∷ s) = elim (Bool-cases (is_space c && is_empty (rstrip s))) [
  | inl e ↦ rw e refl
  | inr e ↦ rw e (no_trail-cons c (rstrip s) (no_trail-rstrip s) e)
]

no_lead-rstrip : (s : Text) → no_lead s ≡ true → no_lead (rstrip s) ≡ true
unfolding rstrip
no_lead-rstrip [] h = refl
no_lead-rstrip (c ∷ s) h = elim (Bool-cases (is_space c && is_empty (rstrip s))) [
  | inl e ↦ rw e refl
  | inr e ↦ rw e h
]

lstrip-no_lead : (s : Text) → no_lead s ≡ true → lstrip s ≡ s
unfolding lstrip
lstrip-no_lead [] h = refl
lstrip-no_lead (c ∷ s) h = ground (arith, h)

rstrip-no_trail : (s : Text) → no_trail s ≡ true → rstrip s ≡ s
unfolding rstrip is_empty
rstrip-no_trail [] h = refl
rstrip-no_trail (c ∷ []) h = ground (arith, h)
rstrip-no_trail (c ∷ d ∷ s) h = rw (rstrip-no_trail (d ∷ s) h) (ground arith)

strip-bare : (s : Text) → no_lead s ≡ true → no_trail s ≡ true → strip s ≡ s
unfolding strip
strip-bare s h k = rw (lstrip-no_lead s h) (rstrip-no_trail s k)

no_lead-strip : (s : Text) → no_lead (strip s) ≡ true
unfolding strip
no_lead-strip s = no_lead-rstrip (lstrip s) (no_lead-lstrip s)

no_trail-strip : (s : Text) → no_trail (strip s) ≡ true
unfolding strip
no_trail-strip s = no_trail-rstrip (lstrip s)

-- A token is its own token.
pub name_token-name_token : (s : Text) → name_token (name_token s) ≡ name_token s
unfolding name_token
name_token-name_token s =
    let t = strip s in
    let lead = no_lead-fold_char t ∙ no_lead-strip s in
    let trail = no_trail-fold_char t ∙ no_trail-strip s in
    ap fold_char (strip-bare (fold_char t) lead trail) ∙ fold_char-plain (fold_char t) (all-plain t)

-- each alias stands for a token that stands for itself
abbrev pub settles : List (Text × Text) → List (Text × Text) → Bool
settles table [] = true
settles table ((k, v) ∷ rest) =
    same (name_token v) v && (same (alias_of table v) v && settles table rest)

abbrev Fixed : List (Text × Text) → Text → Type 0
Fixed table v = (name_token v ≡ v) × (alias_of table v ≡ v)

Settled-from :
    (table rest : List (Text × Text)) (token : Text)
    → settles table rest ≡ true
    → (alias_of rest token ≡ token) ⊎ Fixed table (alias_of rest token)
unfolding alias_of
Settled-from table [] token h = inl refl
Settled-from table ((k, v) ∷ rest) token h =
    let (own, more) = and-eq-true _ _ h in
    let (fixed, tail) = and-eq-true _ _ more in
    elim (Bool-cases (same k token)) [
      | inl e ↦ rw e (inr ((same_iff _ _).0 own, (same_iff _ _).0 fixed))
      | inr e ↦ rw e (Settled-from table rest token tail)
    ]

-- Under a settled table the name that a spelling stands for stands for itself.
pub alias-settled :
    (table : List (Text × Text)) (s : Text)
    → settles table table ≡ true
    → alias_of table (name_token (alias_of table (name_token s))) ≡ alias_of table (name_token s)
alias-settled table s h = elim (Settled-from table table (name_token s) h) [
  | inl e ↦
      ap (λ t. alias_of table (name_token t)) e ∙ ap (alias_of table) (name_token-name_token s)
  | inr (own, fixed) ↦ ap (alias_of table) own ∙ fixed
]
