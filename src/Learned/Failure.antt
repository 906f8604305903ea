-- ===== src/Learned/Failure.antt =====
-- What a session that did not succeed changes in the patterns.
use omnicursor.Prelude.{
  ℕ, zero, suc, ◌≡◌, refl, ap, ◌∙◌, false, ◌||◌, Option, none, some, List, [], ◌∷◌, map, inl, inr,
  get_or, Bool-cases,
}
use omnicursor.Text.{Text, codes, same, is_empty}
use omnicursor.Keywords.{member}
use omnicursor.Event.{Event, is_event}
use omnicursor.Learned.{Pattern}
use omnicursor.Learned.Metrics.{uncounted}
use omnicursor.Learned.Session.{
  last_index, count_injection, count_at, Tally, count_found, count_ids, count_events, updated,
}

uncounted_all : List Pattern → List Pattern
uncounted_all ps = map uncounted ps

uncounted-count_at :
    (now i : ℕ) (ps : List Pattern) → uncounted_all (count_at false now i ps) ≡ uncounted_all ps
unfolding count_at count_injection uncounted_all
uncounted-count_at now i [] = refl
uncounted-count_at now zero (p ∷ ps) = refl
uncounted-count_at now (suc i) (p ∷ ps) = ap (λ qs. uncounted p ∷ qs) (uncounted-count_at now i ps)

module _ (index : Text → Option ℕ) (now : ℕ) where
  uncounted-count_found :
      (o : Option ℕ) (t : Tally)
      → uncounted_all (count_found index false now o t).existing ≡ uncounted_all t.existing
  unfolding count_found
  uncounted-count_found none t = refl
  uncounted-count_found (some i) t = uncounted-count_at now i t.existing

  uncounted-count_ids :
      (seen pids : List Text) (t : Tally)
      → uncounted_all (count_ids index false now seen pids t).existing ≡ uncounted_all t.existing
  unfolding count_ids
  uncounted-count_ids seen [] t = refl
  uncounted-count_ids seen (pid ∷ pids) t = elim (Bool-cases (is_empty pid || member pid seen)) [
    | inl e ↦ rw (e, count_ids) (uncounted-count_ids seen pids t)
    | inr e ↦
        rw (e, count_ids)
          (uncounted-count_ids (pid ∷ seen) pids (count_found index false now (index pid) t)
            ∙ uncounted-count_found (index pid) t)
  ]

  uncounted-count_events :
      (es : List Event) (t : Tally)
      → uncounted_all (count_events index false now es t).existing ≡ uncounted_all t.existing
  unfolding count_events
  uncounted-count_events [] t = refl
  uncounted-count_events (e ∷ es) t = elim (Bool-cases (is_event e (codes "prompt_classified"))) [
    | inl f ↦
        rw (f, count_events)
          (uncounted-count_events es
              (count_ids index false now [] (get_or e.injected_pattern_ids []) t)
            ∙ uncounted-count_ids [] (get_or e.injected_pattern_ids []) t)
    | inr f ↦ rw (f, count_events) (uncounted-count_events es t)
  ]

-- A session that did not succeed learns nothing: behind decay, and before the evictions, the
-- patterns differ from those of the file in their counts of injections alone.
pub updated_failure :
    (digest : Text → Text) (score_text : ℕ → Text) (now : ℕ) (es : List Event) (files_edited : ℕ)
    (outcome : Text) (ps : List Pattern)
    → same outcome (codes "success") ≡ false
    → map uncounted (updated digest score_text now es files_edited outcome ps).existing
      ≡ map uncounted ps
unfolding updated uncounted_all
updated_failure digest score_text now es files_edited outcome ps h = rw h (
    uncounted-count_events (λ pid. last_index pid 0 ps) now es
      (record { existing = ps; changed = 0 }))
