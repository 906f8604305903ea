-- ===== src/Keywords.antt =====
-- The tokeniser that scoring.py, prompt_pattern_selection.py and pattern_writer.py share by copies.
use omnicursor.Prelude.{
  ◌≡◌, ◌↔◌, Bool, true, not, ◌&&◌, List, [], ◌∷◌, any, keep, ltb, length, inl, inr, Has, Bool-cases,
  arith,
}
use omnicursor.Text.{Text, codes, same, same_iff, lower, find_words}

unfoldable pub stopwords : List Text
stopwords =
    codes "a"
    ∷ codes "an"
    ∷ codes "and"
    ∷ codes "are"
    ∷ codes "as"
    ∷ codes "at"
    ∷ codes "be"
    ∷ codes "by"
    ∷ codes "for"
    ∷ codes "from"
    ∷ codes "has"
    ∷ codes "have"
    ∷ codes "i"
    ∷ codes "in"
    ∷ codes "is"
    ∷ codes "it"
    ∷ codes "my"
    ∷ codes "not"
    ∷ codes "of"
    ∷ codes "on"
    ∷ codes "or"
    ∷ codes "the"
    ∷ codes "this"
    ∷ codes "that"
    ∷ codes "to"
    ∷ codes "was"
    ∷ codes "we"
    ∷ codes "with"
    ∷ codes "you"
    ∷ []

-- `w in texts`
unfoldable pub member : Text → List Text → Bool
unfolding same
member w texts = any (λ s. same s w) texts

-- `w not in STOPWORDS and len(w) > 2`
unfoldable pub is_keyword : Text → Bool
unfolding member stopwords
is_keyword w = not (member w stopwords) && ltb 2 (length w)

-- `extract_keywords(text)`
unfoldable pub extract_keywords : Text → List Text
unfolding is_keyword find_words lower
extract_keywords text = keep is_keyword (find_words (lower text))

pub member_iff : (x : Text) (xs : List Text) → (member x xs ≡ true) ↔ Has x xs
unfolding member
member_iff x [] = (λ h. cc (h), λ h. absurd h)
member_iff x (y ∷ xs) =
    let (there, back) = member_iff x xs in
    let (eq, ok) = same_iff y x in
    (
      λ h. elim (Bool-cases (same y x)) [
        | inl e ↦ inl (eq e)
        | inr e ↦ inr (there (ground (arith, e, h)))
      ],
      λ k. elim k [
        | inl e ↦ let f = ok e in ground (arith, f)
        | inr later ↦ let f = back later in ground (arith, f)
      ],
    )
