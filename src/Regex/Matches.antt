-- ===== src/Regex/Matches.antt =====
-- What a pattern means, as a relation, with no order of search.
use omnicursor.Prelude.{ℕ, ◌≡◌, Bool, true, Option, [], ◌∷◌, ◌++◌}
use omnicursor.Text.{Text}
use omnicursor.Regex.{
  Regex, eps, set, seq, alt, star, bound, at_start, at_end, at_eol, last_or, is_edge, is_start,
  is_end, is_eol,
}

-- `Matches r prev a t`: behind the character `prev` and before the text `t`, `r` matches `a`.
pub data Matches : Regex → Option ℕ → Text → Text → Type 0 where
  m_eps : {prev : Option ℕ} {t : Text} → Matches eps prev [] t
  m_set :
      {p : ℕ → Bool} {prev : Option ℕ} {c : ℕ} {t : Text}
      → p c ≡ true
      → Matches (set p) prev (c ∷ []) t
  m_seq :
      {r s : Regex} {prev : Option ℕ} {a b c t : Text}
      → Matches r prev a (b ++ t)
      → Matches s (last_or prev a) b t
      → c ≡ a ++ b
      → Matches (seq r s) prev c t
  m_left :
      {r s : Regex} {prev : Option ℕ} {a t : Text} → Matches r prev a t → Matches (alt r s) prev a t
  m_right :
      {r s : Regex} {prev : Option ℕ} {a t : Text} → Matches s prev a t → Matches (alt r s) prev a t
  m_stop : {r : Regex} {prev : Option ℕ} {t : Text} → Matches (star r) prev [] t
  m_more :
      {r : Regex} {prev : Option ℕ} {x : ℕ} {y a b c t : Text}
      → Matches r prev a (b ++ t)
      → a ≡ x ∷ y
      → Matches (star r) (last_or prev a) b t
      → c ≡ a ++ b
      → Matches (star r) prev c t
  m_bound : {prev : Option ℕ} {t : Text} → is_edge prev t ≡ true → Matches bound prev [] t
  m_start : {prev : Option ℕ} {t : Text} → is_start prev ≡ true → Matches at_start prev [] t
  m_end : {prev : Option ℕ} {t : Text} → is_end t ≡ true → Matches at_end prev [] t
  m_eol : {prev : Option ℕ} {t : Text} → is_eol t ≡ true → Matches at_eol prev [] t

-- `r` matches somewhere in a text that stands behind `prev`.
pub record Occurs (r : Regex) (prev : Option ℕ) (text : Text) : Type 0 where
  pub before : Text
  pub hit : Text
  pub after : Text
  pub splits : text ≡ before ++ (hit ++ after)
  pub matched : Matches r (last_or prev before) hit after
