-- ===== src/Regex/Sound.antt =====
-- Every run of the matcher is a match, and cuts the text in two.
use omnicursor.Prelude.{
  ℕ, zero, suc, ◌≡◌, refl, sym, ap, ◌∙◌, subst, Bool, true, false, Option, List, [], ◌∷◌, ◌++◌,
  Bool-cases, inl, inr, length, All, All-append,
}
use mathlib.Core.List.{append_assoc}
use omnicursor.Text.{Text}
use omnicursor.Regex.{
  Regex, eps, set, seq, alt, star, bound, at_start, at_end, at_eol, last_or, Run, prepend, follow,
  nonempty, star_runs, when, one, runs,
}
use omnicursor.Regex.Matches.{
  Matches, m_eps, m_set, m_seq, m_left, m_right, m_stop, m_more, m_bound, m_start, m_end, m_eol,
}

-- `run` is a cut of `t` of which `P` holds.
abbrev pub IsRun : (Text → Text → Type 0) → Text → Run → Type 0
IsRun P t run = (t ≡ run.0 ++ run.1) × P run.0 run.1

abbrev pub AllRuns : (Text → Text → Type 0) → Text → List Run → Type 0
AllRuns P t l = All (IsRun P t) l

cut_again : (t a u b v : Text) → t ≡ a ++ u → u ≡ b ++ v → t ≡ (a ++ b) ++ v
cut_again t a u b v e f = e ∙ ap (λ x. a ++ x) f ∙ sym (append_assoc a b v)

module _ (Q R : Text → Text → Type 0) (t a u : Text) (cut : t ≡ a ++ u) where
  AllRuns-prepend :
      ((b v : Text) → u ≡ b ++ v → Q b v → R (a ++ b) v)
      → (l : List Run) → AllRuns Q u l
      → AllRuns R t (prepend a l)
  unfolding prepend
  AllRuns-prepend join [] h = tt
  AllRuns-prepend join ((b, v) ∷ l) ((e, q), h) =
      ((cut_again t a u b v cut e, join b v e q), AllRuns-prepend join l h)

module _ (P R : Text → Text → Type 0) (t : Text) (k : Text → Text → List Run) where
  AllRuns-follow :
      ((a u : Text) → t ≡ a ++ u → P a u → AllRuns R t (prepend a (k a u)))
      → (l : List Run) → AllRuns P t l
      → AllRuns R t (follow l k)
  unfolding follow
  AllRuns-follow next [] h = tt
  AllRuns-follow next ((a, u) ∷ l) ((e, p), h) =
      All-append (IsRun R t) (prepend a (k a u)) (follow l k) (next a u e p)
        (AllRuns-follow next l h)

abbrev NonEmpty : (Text → Text → Type 0) → Text → Text → Type 0
NonEmpty P a u = P a u × (x : ℕ) × (b : Text) × (a ≡ x ∷ b)

AllRuns-nonempty :
    (P : Text → Text → Type 0) (t : Text) (l : List Run)
    → AllRuns P t l
    → AllRuns (NonEmpty P) t (nonempty l)
unfolding nonempty
AllRuns-nonempty P t [] h = tt
AllRuns-nonempty P t (([], u) ∷ l) (_, h) = AllRuns-nonempty P t l h
AllRuns-nonempty P t ((c ∷ a, u) ∷ l) ((e, p), h) = ((e, (p, c, a, refl)), AllRuns-nonempty P t l h)

module _ (r : Regex)
    (step : (prev : Option ℕ) (t : Text) → AllRuns (Matches r prev) t (runs r prev t)) where
  star_runs_sound :
      (n : ℕ) (prev : Option ℕ) (t : Text)
      → AllRuns (Matches (star r) prev) t (star_runs (runs r) n prev t)
  unfolding star_runs
  star_runs_sound zero prev t = ((refl, m_stop), tt)
  star_runs_sound (suc n) prev t =
      All-append (IsRun (Matches (star r) prev) t)
        (follow (nonempty (runs r prev t)) (λ a u. star_runs (runs r) n (last_or prev a) u))
        (([], t) ∷ [])
        (AllRuns-follow (NonEmpty (Matches r prev)) (Matches (star r) prev) t _
          (λ a u e (p, x, y, f).
            AllRuns-prepend (Matches (star r) (last_or prev a)) (Matches (star r) prev) t a u e
              (λ b v g q. m_more (subst (λ w. Matches r prev a w) g p) f q refl) _
              (star_runs_sound n (last_or prev a) u))
          (nonempty (runs r prev t)) (AllRuns-nonempty (Matches r prev) t _ (step prev t)))
        ((refl, m_stop), tt)

when_sound :
    (P : Text → Text → Type 0) (b : Bool) (t : Text) → (b ≡ true → P [] t) → AllRuns P t (when b t)
when_sound P true t h = ((refl, h refl), tt)
when_sound P false t h = tt

one_sound : (p : ℕ → Bool) (prev : Option ℕ) (t : Text) → AllRuns (Matches (set p) prev) t (one p t)
one_sound p prev [] = tt
one_sound p prev (c ∷ t) = elim (Bool-cases (p c)) [
  | inl e ↦ rw e ((refl, m_set e), tt)
  | inr e ↦ rw e tt
]

All-mono : (P Q : Run → Type 0) (l : List Run) → ((x : Run) → P x → Q x) → All P l → All Q l
All-mono P Q [] f h = tt
All-mono P Q (x ∷ l) f (p, h) = (f x p, All-mono P Q l f h)

-- Every run cuts the text in two, and the part that it consumes is a match.
pub runs_sound :
    (r : Regex) (prev : Option ℕ) (t : Text) → AllRuns (Matches r prev) t (runs r prev t)
unfolding runs
runs_sound eps prev t = ((refl, m_eps), tt)
runs_sound (set p) prev t = one_sound p prev t
runs_sound (seq r s) prev t =
    AllRuns-follow (Matches r prev) (Matches (seq r s) prev) t _
      (λ a u e p.
        AllRuns-prepend (Matches s (last_or prev a)) (Matches (seq r s) prev) t a u e
          (λ b v g q. m_seq (subst (λ w. Matches r prev a w) g p) q refl) _
          (runs_sound s (last_or prev a) u))
      (runs r prev t) (runs_sound r prev t)
runs_sound (alt r s) prev t =
    All-append (IsRun (Matches (alt r s) prev) t) (runs r prev t) (runs s prev t)
      (All-mono _ (IsRun (Matches (alt r s) prev) t) (runs r prev t) (λ x (e, m). (e, m_left m))
        (runs_sound r prev t))
      (All-mono _ (IsRun (Matches (alt r s) prev) t) (runs s prev t) (λ x (e, m). (e, m_right m))
        (runs_sound s prev t))
runs_sound (star r) prev t = star_runs_sound r (runs_sound r) (length t) prev t
runs_sound bound prev t = when_sound (Matches bound prev) _ t (λ h. m_bound h)
runs_sound at_start prev t = when_sound (Matches at_start prev) _ t (λ h. m_start h)
runs_sound at_end prev t = when_sound (Matches at_end prev) _ t (λ h. m_end h)
runs_sound at_eol prev t = when_sound (Matches at_eol prev) _ t (λ h. m_eol h)
