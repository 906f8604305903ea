-- ===== src/Regex/Search.antt =====
-- `re.search` decides whether a pattern occurs.
use omnicursor.Prelude.{
  ℕ, ◌≡◌, refl, ap, ◌↔◌, true, Option, none, some, List, [], ◌∷◌, ◌++◌, arith, Bool-cases, inl, inr,
  Has, ==_iff,
}
use omnicursor.Text.{Text, lower, to_lower}
use omnicursor.Regex.{Regex, last_or, Run, runs, has_run, search_from, re_search, lit_i}
use omnicursor.Regex.Matches.{Matches, m_eps, m_set, m_seq, Occurs}
use omnicursor.Regex.Sound.{runs_sound, AllRuns}
use omnicursor.Regex.Complete.{runs_complete}

first_run :
    (P : Text → Text → Type 0) (t : Text) (l : List Run)
    → has_run l ≡ true
    → AllRuns P t l
    → (a u : Text) × (t ≡ a ++ u) × P a u
first_run P t [] h k = cc
first_run P t ((a, u) ∷ l) h ((e, p), k) = (a, u, e, p)

Occurs-here :
    (r : Regex) (prev : Option ℕ) (t : Text) → has_run (runs r prev t) ≡ true → Occurs r prev t
unfolding last_or
Occurs-here r prev t h =
    let (a, u, e, m) = first_run (Matches r prev) t (runs r prev t) h (runs_sound r prev t) in
    record { before = []; hit = a; after = u; splits = e; matched = m }

Occurs-later :
    (r : Regex) (prev : Option ℕ) (c : ℕ) (t : Text) → Occurs r (some c) t → Occurs r prev (c ∷ t)
unfolding last_or
Occurs-later r prev c t o = record {
  before = c ∷ o.before;
  hit = o.hit;
  after = o.after;
  splits = ap (λ s. c ∷ s) o.splits;
  matched = o.matched;
}

search_from_sound :
    (r : Regex) (prev : Option ℕ) (t : Text) → search_from r prev t ≡ true → Occurs r prev t
unfolding search_from
search_from_sound r prev [] h = Occurs-here r prev [] h
search_from_sound r prev (c ∷ t) h = elim (Bool-cases (has_run (runs r prev (c ∷ t)))) [
  | inl e ↦ Occurs-here r prev (c ∷ t) e
  | inr e ↦ Occurs-later r prev c t (search_from_sound r (some c) t (rw e at h))
]

search_from_here :
    (r : Regex) (prev : Option ℕ) (t : Text)
    → has_run (runs r prev t) ≡ true
    → search_from r prev t ≡ true
unfolding search_from
search_from_here r prev [] h = h
search_from_here r prev (c ∷ t) h = rw h

search_from_later :
    (r : Regex) (prev : Option ℕ) (c : ℕ) (t : Text)
    → search_from r (some c) t ≡ true
    → search_from r prev (c ∷ t) ≡ true
unfolding search_from
search_from_later r prev c t h = ground arith

has_run-of_Has : (l : List Run) (run : Run) → Has run l → has_run l ≡ true
has_run-of_Has [] run h = absurd h
has_run-of_Has (x ∷ l) run h = refl

search_from_complete :
    (r : Regex) (prev : Option ℕ) (b a t : Text)
    → Matches r (last_or prev b) a t
    → search_from r prev (b ++ (a ++ t)) ≡ true
unfolding last_or
search_from_complete r prev [] a t m =
    search_from_here r prev (a ++ t)
      (has_run-of_Has (runs r prev (a ++ t)) (a, t) (runs_complete r prev a t m))
search_from_complete r prev (c ∷ b) a t m =
    search_from_later r prev c (b ++ (a ++ t)) (search_from_complete r (some c) b a t m)

-- `re.search` succeeds exactly when the pattern matches somewhere in the text: the backtracking
-- matcher misses no match, reports none that is not there, and never runs out of fuel.
pub re_search_iff : (r : Regex) (t : Text) → (re_search r t ≡ true) ↔ Occurs r none t
unfolding re_search
re_search_iff r t = (
  search_from_sound r none t,
  λ o. rw o.splits (search_from_complete r none o.before o.hit o.after o.matched),
)

-- A pattern that matches a part of the text behind every character is found in it.
pub re_search_inside :
    (r : Regex) (b a t : Text)
    → ((prev : Option ℕ) → Matches r prev a t)
    → re_search r (b ++ (a ++ t)) ≡ true
unfolding re_search
re_search_inside r b a t m = search_from_complete r none b a t (m (last_or none b))

-- A literal under IGNORECASE matches each text that is equal to it up to case.
pub lit_i-Matches :
    (p w : Text) (prev : Option ℕ) (t : Text) → lower w ≡ lower p → Matches (lit_i p) prev w t
unfolding lower
lit_i-Matches [] [] prev t h = m_eps
lit_i-Matches [] (c ∷ w) prev t h = cc
lit_i-Matches (d ∷ p) [] prev t h = cc
lit_i-Matches (d ∷ p) (c ∷ w) prev t h =
    m_seq (m_set ((==_iff (to_lower c) (to_lower d)).1 (cc)))
      (lit_i-Matches p w (last_or prev (c ∷ [])) t (cc)) refl
