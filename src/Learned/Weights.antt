-- ===== src/Learned/Weights.antt =====
-- What a session's update leaves in the file.
use omnicursor.Prelude.{
  ℕ, zero, suc, ◌-◌, ◌≤◌, ◌≡◌, refl, sym, subst, Bool, true, false, not, ◌&&◌, ◌||◌, Option, none,
  some, List, [], ◌∷◌, arith, ltb, ◌==◌, ◌⊎◌, inl, inr, get_or, length, length-take-le, All,
  All-map, Bool-cases, All-keep, keep-Keeps,
}
use omnicursor.Text.{Text, codes, same, is_empty}
use omnicursor.Json.{ok}
use omnicursor.Keywords.{member}
use omnicursor.Event.{Event, is_event}
use omnicursor.Learned.{Pattern, decay_period, boosted_increment}
use omnicursor.Learned.Steps.{
  decayed_weight, decay_pattern, decay_patterns, raise_weight, reinforce, new_pattern, upsert_at,
  upsert_pattern, is_underused, evict_low_utilization, sort_heavy, is_at,
}
use omnicursor.Learned.Decay.{decayed_weight-bounds}
use omnicursor.Learned.Session.{
  PatternsFile, load_patterns, Candidate, last_index, count_injection, count_at, Tally, count_found,
  count_ids, count_events, learn_all, save_tally, finish_with, finish, updated,
  write_session_patterns,
}
use omnicursor.Learned.Overflow.{of_domain, of_domain-best, evict_overflow-All}

-- A pattern with a weight, of at most the cap.
abbrev pub Weighted : Pattern → Type 0
Weighted p = (w : ℕ) × (p.weight ≡ some w) × (w ≤ 950)

decayed_weight-le : (w age : ℕ) → w ≤ 950 → decayed_weight w age ≤ 950
decayed_weight-le w age h = let (low, high) = decayed_weight-bounds w age in omega (arith, h, high)

raise_weight-le : (o : Option ℕ) (k : ℕ) → raise_weight o k ≤ 950
unfolding raise_weight
raise_weight-le o k = omega arith

decay_pattern-Weighted :
    (now : ℕ) (p : Pattern) → Weighted p → (q : Pattern) × (decay_pattern now p ≡ ok q) × Weighted q
unfolding decay_pattern
decay_pattern-Weighted now p (w, e, h) =
    let age = now - get_or p.last_seen now in
    elim (Bool-cases (ltb decay_period age)) [
      | inl late ↦ (
        record p { weight = some (decayed_weight w age) },
        rw (late, e) refl,
        (decayed_weight w age, refl, decayed_weight-le w age h),
      )
      | inr early ↦ (p, rw early refl, (w, e, h))
    ]

decay_patterns-Weighted :
    (now : ℕ) (ps : List Pattern)
    → All Weighted ps
    → (qs : List Pattern) × (decay_patterns now ps ≡ ok qs) × All Weighted qs
unfolding decay_patterns
decay_patterns-Weighted now [] h = ([], refl, tt)
decay_patterns-Weighted now (p ∷ ps) (h, hs) =
    let (q, e, k) = decay_pattern-Weighted now p h in
    let (qs, es, ks) = decay_patterns-Weighted now ps hs in (q ∷ qs, rw (e, es) refl, (k, ks))

count_injection-Weighted :
    (success : Bool) (now : ℕ) (p : Pattern) → Weighted p → Weighted (count_injection success now p)
unfolding count_injection
count_injection-Weighted true now p h =
    (raise_weight p.weight boosted_increment, refl, raise_weight-le p.weight boosted_increment)
count_injection-Weighted false now p h = h

count_at-Weighted :
    (success : Bool) (now i : ℕ) (ps : List Pattern)
    → All Weighted ps
    → All Weighted (count_at success now i ps)
unfolding count_at
count_at-Weighted success now i [] h = h
count_at-Weighted success now zero (p ∷ ps) (h, hs) = (count_injection-Weighted success now p h, hs)
count_at-Weighted success now (suc i) (p ∷ ps) (h, hs) = (h, count_at-Weighted success now i ps hs)

module _ (index : Text → Option ℕ) (success : Bool) (now : ℕ) where
  count_found-Weighted :
      (o : Option ℕ) (t : Tally)
      → All Weighted t.existing
      → All Weighted (count_found index success now o t).existing
  unfolding count_found
  count_found-Weighted none t h = h
  count_found-Weighted (some i) t h = count_at-Weighted success now i t.existing h

  count_ids-Weighted :
      (seen pids : List Text) (t : Tally)
      → All Weighted t.existing
      → All Weighted (count_ids index success now seen pids t).existing
  unfolding count_ids
  count_ids-Weighted seen [] t h = h
  count_ids-Weighted seen (pid ∷ pids) t h = elim (Bool-cases (is_empty pid || member pid seen)) [
    | inl e ↦ rw (e, All) (count_ids-Weighted seen pids t h)
    | inr e ↦
        rw (e, All) (count_ids-Weighted (pid ∷ seen) pids _ (count_found-Weighted (index pid) t h))
  ]

  count_events-Weighted :
      (es : List Event) (t : Tally)
      → All Weighted t.existing
      → All Weighted (count_events index success now es t).existing
  unfolding count_events
  count_events-Weighted [] t h = h
  count_events-Weighted (e ∷ es) t h = elim (Bool-cases (is_event e (codes "prompt_classified"))) [
    | inl f ↦
        rw (f, All)
          (count_events-Weighted es _
            (count_ids-Weighted [] (get_or e.injected_pattern_ids []) t h))
    | inr f ↦ rw (f, All) (count_events-Weighted es t h)
  ]

upsert_at-Weighted :
    (digest : Text → Text) (domain key description : Text) (now : ℕ) (injected : Bool)
    (ps : List Pattern)
    → All Weighted ps
    → All Weighted (upsert_at digest domain key description now injected ps)
unfolding upsert_at new_pattern reinforce
upsert_at-Weighted digest domain key description now injected [] h = ((600, refl, omega arith), tt)
upsert_at-Weighted digest domain key description now injected (p ∷ ps) (h, hs) =
    elim (Bool-cases (is_at domain key p)) [
      | inl e ↦ rw e ((raise_weight p.weight _, refl, raise_weight-le p.weight _), hs)
      | inr e ↦ rw e (h, upsert_at-Weighted digest domain key description now injected ps hs)
    ]

learn_all-Weighted :
    (digest : Text → Text) (now : ℕ) (cs : List Candidate) (t : Tally)
    → All Weighted t.existing
    → All Weighted (learn_all digest now cs t).existing
unfolding learn_all
learn_all-Weighted digest now [] t h = h
learn_all-Weighted digest now (c ∷ cs) t h = learn_all-Weighted digest now cs _ (
    unfold upsert_pattern in
    upsert_at-Weighted digest c.domain _ c.description now false t.existing h)

-- A list of patterns as `write_session_patterns` leaves it in the file.
pub record Kept (ps : List Pattern) : Type 0 where
  pub weighted : All Weighted ps
  pub useful : All (λ (p : Pattern). is_underused p ≡ false) ps
  pub bounded : (d : Text) → length (of_domain d ps) ≤ 20

pub KeptOption : Option (List Pattern) → Type 0
KeptOption none = Unit
KeptOption (some ps) = Kept ps

evict_low_utilization-useful :
    (ps : List Pattern) → All (λ (p : Pattern). is_underused p ≡ false) (evict_low_utilization ps)
unfolding evict_low_utilization
evict_low_utilization-useful ps =
    All-map _ _ (λ (p : Pattern) (e : not (is_underused p) ≡ true). ground (arith, e)) _
      (All-keep (λ p. not (is_underused p)) ps)

save_tally-Kept : (t : Tally) → All Weighted t.existing → KeptOption (save_tally t)
unfolding save_tally KeptOption
save_tally-Kept t h =
    let kept = evict_low_utilization t.existing in
    record {
      weighted = evict_overflow-All Weighted kept (
          unfold evict_low_utilization in
          keep-Keeps (λ p. not (is_underused p)) Weighted t.existing h);
      useful = evict_overflow-All _ kept (evict_low_utilization-useful t.existing);
      bounded = λ d.
          subst (λ (l : List Pattern). length l ≤ 20) (sym (of_domain-best d kept))
            (length-take-le 20 (sort_heavy (of_domain d kept)));
    }

finish_with-cases :
    (ps : List Pattern) (n : ℕ) (saved : Option (List Pattern))
    → (finish_with ps n saved ≡ (0, none)) ⊎ (finish_with ps n saved ≡ (n, saved))
unfolding finish_with
finish_with-cases [] n saved = elim (Bool-cases (n == 0)) [
  | inl e ↦ inl (rw e refl)
  | inr e ↦ inr (rw e refl)
]
finish_with-cases (p ∷ ps) n saved = inr refl

finish-Kept : (t : Tally) → All Weighted t.existing → KeptOption (finish t).1
unfolding finish KeptOption
finish-Kept t h = elim (finish_with-cases t.existing t.changed (save_tally t)) [
  | inl e ↦ subst (λ (r : ℕ × Option (List Pattern)). KeptOption r.1) (sym e) tt
  | inr e ↦ subst (λ (r : ℕ × Option (List Pattern)). KeptOption r.1) (sym e) (save_tally-Kept t h)
]

module _ (digest : Text → Text) (score_text : ℕ → Text) (now : ℕ) where
  updated-Weighted :
      (es : List Event) (files_edited : ℕ) (outcome : Text) (ps : List Pattern)
      → All Weighted ps
      → All Weighted (updated digest score_text now es files_edited outcome ps).existing
  unfolding updated
  updated-Weighted es files_edited outcome ps h =
      let success = same outcome (codes "success") in
      let counted =
        count_events-Weighted (λ pid. last_index pid 0 ps) success now es
          (record { existing = ps; changed = 0 }) h in
      elim (Bool-cases (success && ltb 0 files_edited)) [
        | inl e ↦ rw e (learn_all-Weighted digest now _ _ counted)
        | inr e ↦ rw e counted
      ]

  -- On a file whose patterns all have a weight of at most 950, `write_session_patterns` returns.
  -- What it writes then, if it writes, again has a weight of at most 950 on each pattern; it holds
  -- no pattern that was injected often and seldom led to success; and of no domain does it hold
  -- more than twenty.
  pub write_session_patterns-Kept :
      (file : PatternsFile) (loaded : List Pattern) (es : List Event) (files_edited : ℕ)
      (outcome : Text)
      → load_patterns digest file ≡ ok loaded
      → All Weighted loaded
      → (changed : ℕ) × (saved : Option (List Pattern)) × (write_session_patterns digest score_text
            now file es files_edited outcome
          ≡ ok (changed, saved))
        × KeptOption saved
  unfolding write_session_patterns
  write_session_patterns-Kept file loaded es files_edited outcome read h =
      let (existing, decayed, k) = decay_patterns-Weighted now loaded h in
      let t = updated digest score_text now es files_edited outcome existing in
      (
        (finish t).0,
        (finish t).1,
        rw (read, decayed) refl,
        finish-Kept t (updated-Weighted es files_edited outcome existing k),
      )
