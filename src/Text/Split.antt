-- ===== src/Text/Split.antt =====
-- `str.split` at one character, and its round trip with `join`.
use omnicursor.Prelude.{
  ℕ, ◌≡◌, refl, ap, ◌∙◌, false, not, List, [], ◌∷◌, ◌++◌, ◌==◌, if◌then◌else◌, All, any, arith,
}
use omnicursor.Text.{Text, join, is_empty, is_space}

-- a character before the first piece
abbrev pub onto_first : ℕ → List Text → List Text
onto_first c [] = (c ∷ []) ∷ []
onto_first c (s ∷ ss) = (c ∷ s) ∷ ss

-- `s.split(sep)`
unfoldable pub split : ℕ → Text → List Text
split sep [] = [] ∷ []
split sep (c ∷ s) = let rest = split sep s in if c == sep then [] ∷ rest else onto_first c rest

-- the character is not in the text
abbrev pub Without : ℕ → Text → Type 0
Without sep s = any (λ c. c == sep) s ≡ false

split-Without : (sep : ℕ) (s : Text) → Without sep s → split sep s ≡ s ∷ []
unfolding split
split-Without sep [] h = refl
split-Without sep (c ∷ s) h = ground (arith, h, split-Without sep s)

split-append : (sep : ℕ) (s t : Text) → Without sep s → split sep (s ++ (sep ∷ t)) ≡ s ∷ split sep t
unfolding split
split-append sep [] t h = ground arith
split-append sep (c ∷ s) t h = ground (arith, h, split-append sep s t)

-- Joined pieces without the separator are split back into the same pieces.
pub split-join :
    (sep : ℕ) (s : Text) (ss : List Text)
    → All (Without sep) (s ∷ ss)
    → split sep (join (sep ∷ []) (s ∷ ss)) ≡ s ∷ ss
unfolding join
split-join sep s [] (h, _) = split-Without sep s h
split-join sep s (t ∷ ss) (h, k) =
    split-append sep s (join (sep ∷ []) (t ∷ ss)) h ∙ ap (λ r. s ∷ r) (split-join sep t ss k)

-- the words between white space, with the word being read, without its end
words_by_space : Text → Text → List Text
words_by_space run [] = if is_empty run then [] else run ∷ []
words_by_space run (c ∷ s) =
    let longer = words_by_space (run ++ c ∷ []) s in
    let fresh = words_by_space [] s in
    if not (is_space c) then longer else if is_empty run then fresh else run ∷ fresh

-- `s.split()`
unfoldable pub split_words : Text → List Text
unfolding words_by_space
split_words s = words_by_space [] s
