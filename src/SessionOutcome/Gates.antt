-- ===== src/SessionOutcome/Gates.antt =====
-- What each outcome of derive_session_outcome means.
use omnicursor.Prelude.{
  ℕ, ◌<◌, ◌≡◌, refl, subst, ◌↔◌, Bool, true, not, ◌&&◌, ◌||◌, Option, none, List, [], ◌∷◌, ltb, ◌⊎◌,
  inl, inr, or-eq-true, and-eq-true, Bool-cases, arith,
}
use omnicursor.Text.{Text}
use omnicursor.Regex.{Regex, re_search}
use omnicursor.Regex.Matches.{Occurs}
use omnicursor.Regex.Search.{re_search_iff}
use omnicursor.Event.{Event}
use omnicursor.SessionOutcome.Markers.{error_markers, completion_markers}
use omnicursor.SessionOutcome.{
  Outcome, failed, success, abandoned, unknown, any_search, has_failed_line, has_error_markers,
  has_completion_markers, exit_failed, corpus_of, compute_duration, count_work, gates,
  derive_session_outcome, abandon_threshold,
}

-- One of the patterns occurs in the text.
abbrev pub OccursAny : List Regex → Text → Type 0
OccursAny [] text = ⊥
OccursAny (r ∷ rs) text = Occurs r none text ⊎ OccursAny rs text

any_search_iff : (rs : List Regex) (text : Text) → (any_search rs text ≡ true) ↔ OccursAny rs text
unfolding any_search
any_search_iff [] text = (λ h. cc (h), λ h. absurd h)
any_search_iff (r ∷ rs) text =
    let (there, back) = any_search_iff rs text in
    let (found, hit) = re_search_iff r text in
    (
      λ h. elim (Bool-cases (re_search r text)) [
        | inl e ↦ inl (found e)
        | inr e ↦ inr (there (ground (arith, e, h)))
      ],
      λ o. elim o [
        | inl here ↦ let e = hit here in ground (arith, e)
        | inr later ↦ let e = back later in ground (arith, e)
      ],
    )

module _ (parse : Text → Option ℕ) (status : Text) (events : List Event) where
  -- The status is a failure, an error marker occurs, or a line ends in FAILED without a zero count.
  abbrev pub Failing : Type 0
  Failing =
      (exit_failed status ≡ true)
      ⊎ (OccursAny error_markers (corpus_of status events)
          ⊎ (has_failed_line (corpus_of status events) ≡ true))

  abbrev pub Completed : Type 0
  Completed = OccursAny completion_markers (corpus_of status events)

  abbrev pub Worked : Type 0
  Worked = 0 < count_work events

  -- less than a minute between the first timestamp and the last
  abbrev pub Brief : Type 0
  Brief = compute_duration parse events < 60000000

  -- What each outcome says of the session.
  abbrev pub Meaning : Outcome → Type 0
  Meaning failed = Failing
  Meaning success = ¬ Failing × Worked × Completed
  Meaning abandoned = ¬ Failing × ¬ Completed × Brief
  Meaning unknown = ¬ Failing × ¬ (Worked × Completed) × ¬ (¬ Completed × Brief)

  Meaning-unique : (o p : Outcome) → Meaning o → Meaning p → o ≡ p
  Meaning-unique failed failed h k = refl
  Meaning-unique failed success h k = absurd (k.0 h)
  Meaning-unique failed abandoned h k = absurd (k.0 h)
  Meaning-unique failed unknown h k = absurd (k.0 h)
  Meaning-unique success failed h k = absurd (h.0 k)
  Meaning-unique success success h k = refl
  Meaning-unique success abandoned h k = absurd (k.1 h.2)
  Meaning-unique success unknown h k = absurd (k.1 (h.1, h.2))
  Meaning-unique abandoned failed h k = absurd (h.0 k)
  Meaning-unique abandoned success h k = absurd (h.1 k.2)
  Meaning-unique abandoned abandoned h k = refl
  Meaning-unique abandoned unknown h k = absurd (k.2 (h.1, h.2))
  Meaning-unique unknown failed h k = absurd (h.0 k)
  Meaning-unique unknown success h k = absurd (h.1 (k.1, k.2))
  Meaning-unique unknown abandoned h k = absurd (h.2 (k.1, k.2))
  Meaning-unique unknown unknown h k = refl

  failing_iff :
      ((exit_failed status || has_error_markers (corpus_of status events)) ≡ true) ↔ Failing
  unfolding has_error_markers
  failing_iff =
      let text = corpus_of status events in
      let (there, back) = any_search_iff error_markers text in
      (
        λ h. elim (or-eq-true (exit_failed status) _ h) [
          | inl e ↦ inl e
          | inr e ↦ elim (or-eq-true (any_search error_markers text) _ e) [
            | inl f ↦ inr (inl (there f))
            | inr f ↦ inr (inr f)
          ]
        ],
        λ o. elim o [
          | inl e ↦ ground (arith, e)
          | inr (inl f) ↦ let e = back f in ground (arith, e)
          | inr (inr f) ↦ ground (arith, f)
        ],
      )

  completed_iff : (has_completion_markers (corpus_of status events) ≡ true) ↔ Completed
  unfolding has_completion_markers
  completed_iff = any_search_iff completion_markers (corpus_of status events)

module _ (seconds : ℕ → Text) (Failing Completed : Type 0) where
  abbrev Verdict : ℕ → ℕ → Outcome → Type 0
  Verdict duration work failed = Failing
  Verdict duration work success = ¬ Failing × (0 < work) × Completed
  Verdict duration work abandoned = ¬ Failing × ¬ Completed × (duration < 60000000)
  Verdict duration work unknown =
      ¬ Failing × ¬ ((0 < work) × Completed) × ¬ (¬ Completed × (duration < 60000000))

  gates-Verdict :
      (by_status has_errors has_completion : Bool) (duration work : ℕ)
      → ((by_status || has_errors) ≡ true) ↔ Failing
      → (has_completion ≡ true) ↔ Completed
      → Verdict duration work (gates seconds by_status has_errors has_completion duration work).0
  unfolding gates
  gates-Verdict by_status has_errors has_completion duration work f c =
      elim (Bool-cases (by_status || has_errors)) [
        | inl e ↦ rw e (f.0 e)
        | inr e ↦
            let sane : ¬ Failing = λ x. let y = f.1 x in cc (y, e) in
            elim (Bool-cases (ltb 0 work && has_completion)) [
              | inl g ↦
                  let (w, h) = and-eq-true (ltb 0 work) has_completion g in
                  rw (e, g) (sane, ground (arith, w), c.0 h)
              | inr g ↦ elim (Bool-cases (not has_completion && ltb duration abandon_threshold)) [
                | inl h ↦
                    let (n, b) =
                      and-eq-true (not has_completion) (ltb duration abandon_threshold) h in
                    rw (e, g, h)
                      (sane, (λ x. let y = c.1 x in ground (arith, n, y)), ground (arith, b))
                | inr h ↦
                    rw (e, g, h)
                      (
                        sane,
                        (λ (w, x). let y = c.1 x in ground (arith, g, y, w)),
                        (λ (n, b). elim (Bool-cases has_completion) [
                          | inl y ↦ n (c.0 y)
                          | inr y ↦ ground (arith, h, y, b)
                        ]),
                      )
              ]
            ]
      ]

module _ (parse : Text → Option ℕ) (seconds : ℕ → Text) (status : Text) (events : List Event) where
  to_Meaning :
      (o : Outcome)
      → Verdict seconds
          (Failing parse status events)
          (Completed parse status events)
          (compute_duration parse events)
          (count_work events)
          o
      → Meaning parse status events o
  to_Meaning failed h = h
  to_Meaning success h = h
  to_Meaning abandoned h = h
  to_Meaning unknown h = h

  derived-Meaning :
      Meaning parse status events (derive_session_outcome parse seconds status events).0
  unfolding derive_session_outcome
  derived-Meaning = to_Meaning _ (
      gates-Verdict seconds (Failing parse status events) (Completed parse status events)
        (exit_failed status) _ _ _ _ (failing_iff parse status events)
        (completed_iff parse status events))

  -- The outcome is the one whose meaning holds: `failed` for a failing status, an error marker or a
  -- line that ends in FAILED without a zero count; else `success` for work with a completion
  -- marker; else `abandoned` for a session of less than a minute without a completion marker;
  -- else `unknown`. The markers are occurrences of the patterns in the status and the event texts.
  pub derive_session_outcome_iff :
      (o : Outcome)
      → ((derive_session_outcome parse seconds status events).0 ≡ o) ↔ Meaning parse status events o
  derive_session_outcome_iff o = (
    λ e. subst (λ x. Meaning parse status events x) e derived-Meaning,
    λ m. Meaning-unique parse status events _ o derived-Meaning m,
  )
