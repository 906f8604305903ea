-- ===== src/Learned/Metrics.antt =====
-- The counters of injected patterns in `write_session_patterns`.
use omnicursor.Prelude.{
  ℕ, zero, suc, ◌+◌, ◌<◌, ◌≡◌, refl, ap, ◌∙◌, Bool, true, false, ◌||◌, Option, none, some, List, [],
  ◌∷◌, arith, inl, inr, get_or, length, Bool-cases,
}
use omnicursor.Text.{Text, codes, is_empty}
use omnicursor.Keywords.{member}
use omnicursor.Event.{Event, is_event}
use omnicursor.Learned.{Pattern}
use omnicursor.Learned.Index.{last_index-lt}
use omnicursor.Learned.Session.{
  last_index, count_injection, count_at, Tally, count_found, count_ids, count_events,
}

abbrev pub injections : List Pattern → ℕ
injections [] = 0
injections (p ∷ ps) = p.injection_count + injections ps

-- a pattern but for its count of injections
abbrev pub uncounted : Pattern → Pattern
uncounted p = record p { injection_count = 0 }

count_injection-count :
    (success : Bool) (now : ℕ) (p : Pattern)
    → (count_injection success now p).injection_count ≡ p.injection_count + 1
unfolding count_injection
count_injection-count true now p = refl
count_injection-count false now p = refl

injections-count_at :
    (success : Bool) (now i : ℕ) (ps : List Pattern)
    → i < length ps
    → injections (count_at success now i ps) ≡ injections ps + 1
unfolding count_at
injections-count_at success now i [] h = omega (arith, h)
injections-count_at success now zero (p ∷ ps) h = omega (arith, count_injection-count success now p)
injections-count_at success now (suc i) (p ∷ ps) h =
    omega (arith, injections-count_at success now i ps (omega (arith, h)))

length-count_at :
    (success : Bool) (now i : ℕ) (ps : List Pattern)
    → length (count_at success now i ps) ≡ length ps
unfolding count_at
length-count_at success now i [] = refl
length-count_at success now zero (p ∷ ps) = refl
length-count_at success now (suc i) (p ∷ ps) = ap suc (length-count_at success now i ps)

-- What a run of the counters leaves: as many patterns, and one injection more for each change.
record Counted (before after : Tally) : Type 0 where
  pub same_length : length after.existing ≡ length before.existing
  pub accounted :
      injections after.existing + before.changed ≡ injections before.existing + after.changed

module _ (index : Text → Option ℕ) (success : Bool) (now : ℕ) (n : ℕ)
    (valid : (pid : Text) (i : ℕ) → index pid ≡ some i → i < n) where
  count_found-Counted :
      (o : Option ℕ) (t : Tally)
      → ((i : ℕ) → o ≡ some i → i < n)
      → length t.existing ≡ n
      → Counted t (count_found index success now o t)
  unfolding count_found
  count_found-Counted none t v e = record { same_length = refl; accounted = refl }
  count_found-Counted (some i) t v e =
      let lt = v i refl in
      let more = injections-count_at success now i t.existing (omega (arith, lt, e)) in
      record {
        same_length = length-count_at success now i t.existing;
        accounted = omega (arith, more);
      }

  Counted-trans : (a b c : Tally) → Counted a b → Counted b c → Counted a c
  Counted-trans a b c h k = record {
    same_length = k.same_length ∙ h.same_length;
    accounted = omega (arith, h.accounted, k.accounted);
  }

  count_ids-Counted :
      (seen pids : List Text) (t : Tally)
      → length t.existing ≡ n
      → Counted t (count_ids index success now seen pids t)
  unfolding count_ids
  count_ids-Counted seen [] t e = record { same_length = refl; accounted = refl }
  count_ids-Counted seen (pid ∷ pids) t e = elim (Bool-cases (is_empty pid || member pid seen)) [
    | inl f ↦ rw (f, count_ids) (count_ids-Counted seen pids t e)
    | inr f ↦
        let u = count_found index success now (index pid) t in
        let first : Counted t u = count_found-Counted (index pid) t (λ i. valid pid i) e in
        rw (f, count_ids)
          (Counted-trans t u _ first
            (count_ids-Counted (pid ∷ seen) pids u (first.same_length ∙ e)))
  ]

  count_events-Counted :
      (es : List Event) (t : Tally)
      → length t.existing ≡ n
      → Counted t (count_events index success now es t)
  unfolding count_events
  count_events-Counted [] t e = record { same_length = refl; accounted = refl }
  count_events-Counted (v ∷ es) t e = elim (Bool-cases (is_event v (codes "prompt_classified"))) [
    | inl f ↦
        let ids = get_or v.injected_pattern_ids [] in
        let u = count_ids index success now [] ids t in
        let first = count_ids-Counted [] ids t e in
        rw (f, count_events)
          (Counted-trans t u _ first (count_events-Counted es u (first.same_length ∙ e)))
    | inr f ↦ rw (f, count_events) (count_events-Counted es t e)
  ]

-- The loop over the events counts one injection for each change that it reports, and leaves as
-- many patterns as there were, whatever the outcome of the session.
pub count_events-injections :
    (success : Bool) (now : ℕ) (es : List Event) (ps : List Pattern)
    → let t =
        count_events
          (λ pid. last_index pid 0 ps)
          success
          now
          es
          (record { existing = ps; changed = 0 }) in
      (injections t.existing ≡ injections ps + t.changed) × (length t.existing ≡ length ps)
count_events-injections success now es ps =
    let c =
      count_events-Counted (λ pid. last_index pid 0 ps) success now (length ps)
        (λ pid i h. omega (arith, last_index-lt pid 0 i ps h)) es
        (record { existing = ps; changed = 0 }) refl in
    (omega (arith, c.accounted), c.same_length)
