-- ===== src/Stop/Counts.antt =====
-- What aggregate_session counts.
use omnicursor.Prelude.{
  ℕ, ◌+◌, ◌≤◌, ◌≡◌, refl, ap, ◌∙◌, true, false, Option, none, some, List, [], ◌∷◌, get_or, length,
  length-append, keep, inl, inr, Bool-cases, arith,
}
use omnicursor.Text.{Text, codes, same, same_iff, is_empty}
use omnicursor.Keywords.{member}
use omnicursor.Event.{Event, is_event, is_text}
use omnicursor.Stop.{
  Tally, empty_tally, set_add, count_edit, count_decision, count_event, count_all, summarize,
}

-- how many events are of a kind
abbrev pub of_kind : Text → List Event → ℕ
of_kind kind events = length (keep (λ (e : Event). is_event e kind) events)

kind-is_text :
    (o : Option Text) (kind : Text)
    → same [] kind ≡ false
    → same (get_or o []) kind ≡ is_text o kind
unfolding is_text
kind-is_text none kind h = h
kind-is_text (some k) kind h = refl

is_text-other :
    (o : Option Text) (k l : Text) → same k l ≡ false → is_text o k ≡ true → is_text o l ≡ false
unfolding is_text
is_text-other none k l h g = refl
is_text-other (some s) k l h g = ap (λ x. same x l) ((same_iff s k).0 g) ∙ h

is_event-other :
    (e : Event) (k l : Text) → same k l ≡ false → is_event e k ≡ true → is_event e l ≡ false
unfolding is_event
is_event-other e k l h g = is_text-other e.event k l h g

length-set_add : (x : Text) (xs : List Text) → length (set_add x xs) ≤ length xs + 1
unfolding set_add
length-set_add x xs =
    let longer = length-append xs (x ∷ []) in
    elim (Bool-cases (member x xs)) [
      | inl e ↦ rw e (omega arith)
      | inr e ↦ rw e (omega (arith, longer))
    ]

count_edit-files :
    (e : Event) (t : Tally) → length (count_edit e t).edited_files ≤ length t.edited_files + 1
unfolding count_edit
count_edit-files e t =
    let added = length-set_add (get_or e.file_path []) t.edited_files in
    elim (Bool-cases (is_empty (get_or e.file_path []))) [
      | inl h ↦ rw h (omega arith)
      | inr h ↦ rw h added
    ]

-- what one event adds, by its kind
data Step (e : Event) (t u : Tally) : Type 0 where
  on_prompt :
      is_event e (codes "prompt_classified") ≡ true
      → u ≡ record t { prompts_classified = t.prompts_classified + 1 }
      → Step e t u
  on_edit : is_event e (codes "file_edited") ≡ true → u ≡ count_edit e t → Step e t u
  on_shell :
      is_event e (codes "shell_guard") ≡ true
      → u ≡ count_decision (get_or e.decision (codes "allow")) t
      → Step e t u
  on_other :
      is_event e (codes "prompt_classified") ≡ false
      → is_event e (codes "file_edited") ≡ false
      → is_event e (codes "shell_guard") ≡ false
      → u ≡ t
      → Step e t u

event_kind :
    (e : Event) (kind : Text)
    → same [] kind ≡ false
    → same (get_or e.event []) kind ≡ is_event e kind
unfolding is_event
event_kind e kind h = kind-is_text e.event kind h

count_event-Step : (e : Event) (t : Tally) → Step e t (count_event e t)
unfolding count_event
count_event-Step e t =
    let p = event_kind e (codes "prompt_classified") (unfold same in refl) in
    let f = event_kind e (codes "file_edited") (unfold same in refl) in
    let s = event_kind e (codes "shell_guard") (unfold same in refl) in
    elim (Bool-cases (is_event e (codes "prompt_classified"))) [
      | inl a ↦ on_prompt a (rw (p, a) refl)
      | inr a ↦ elim (Bool-cases (is_event e (codes "file_edited"))) [
        | inl b ↦ on_edit b (rw (p, a, f, b) refl)
        | inr b ↦ elim (Bool-cases (is_event e (codes "shell_guard"))) [
          | inl c ↦ on_shell c (rw (p, a, f, b, s, c) refl)
          | inr c ↦ on_other a b c (rw (p, a, f, b, s, c) refl)
        ]
      ]
    ]

of_kind-hit :
    (kind : Text) (e : Event) (es : List Event)
    → is_event e kind ≡ true
    → of_kind kind (e ∷ es) ≡ of_kind kind es + 1
of_kind-hit kind e es h = ground (arith, h)

of_kind-miss :
    (kind : Text) (e : Event) (es : List Event)
    → is_event e kind ≡ false
    → of_kind kind (e ∷ es) ≡ of_kind kind es
of_kind-miss kind e es h = ground (arith, h)

commands : Tally → ℕ
commands t = t.allowed + (t.denied + t.warned)

commands-count_decision : (d : Text) (t : Tally) → commands (count_decision d t) ≡ commands t + 1
unfolding count_decision commands
commands-count_decision d t = elim (Bool-cases (same d (codes "deny"))) [
  | inl a ↦ rw a (omega arith)
  | inr a ↦ elim (Bool-cases (same d (codes "warn"))) [
    | inl b ↦ rw (a, b) (omega arith)
    | inr b ↦ rw (a, b) (omega arith)
  ]
]

decision_keeps :
    (d : Text) (t : Tally)
    → ((count_decision d t).prompts_classified ≡ t.prompts_classified)
      × ((count_decision d t).edited_files ≡ t.edited_files)
unfolding count_decision
decision_keeps d t = elim (Bool-cases (same d (codes "deny"))) [
  | inl a ↦ rw a (refl, refl)
  | inr a ↦ elim (Bool-cases (same d (codes "warn"))) [
    | inl b ↦ rw (a, b) (refl, refl)
    | inr b ↦ rw (a, b) (refl, refl)
  ]
]

-- what the loop has counted of the events behind it
record Adds (events : List Event) (before after : Tally) : Type 0 where
  pub prompts :
      after.prompts_classified
      ≡ before.prompts_classified + of_kind (codes "prompt_classified") events
  pub decisions : commands after ≡ commands before + of_kind (codes "shell_guard") events
  pub files :
      length after.edited_files ≤ length before.edited_files + of_kind (codes "file_edited") events

first_event : (e : Event) (t u : Tally) → Step e t u → Adds (e ∷ []) t u
unfolding commands same count_edit
first_event e t u (on_prompt a x) =
    let f =
      of_kind-miss (codes "file_edited") e []
        (is_event-other e (codes "prompt_classified") (codes "file_edited") refl a) in
    let s =
      of_kind-miss (codes "shell_guard") e []
        (is_event-other e (codes "prompt_classified") (codes "shell_guard") refl a) in
    let p = of_kind-hit (codes "prompt_classified") e [] a in
    rw x (record {
      prompts = omega (arith, p);
      decisions = omega (arith, s);
      files = omega (arith, f);
    })
first_event e t u (on_edit a x) =
    let p =
      of_kind-miss (codes "prompt_classified") e []
        (is_event-other e (codes "file_edited") (codes "prompt_classified") refl a) in
    let s =
      of_kind-miss (codes "shell_guard") e []
        (is_event-other e (codes "file_edited") (codes "shell_guard") refl a) in
    let f = of_kind-hit (codes "file_edited") e [] a in
    let le = count_edit-files e t in
    rw x (record {
      prompts = omega (arith, p);
      decisions = omega (arith, s);
      files = omega (arith, f, le);
    })
first_event e t u (on_shell a x) =
    let p =
      of_kind-miss (codes "prompt_classified") e []
        (is_event-other e (codes "shell_guard") (codes "prompt_classified") refl a) in
    let f =
      of_kind-miss (codes "file_edited") e []
        (is_event-other e (codes "shell_guard") (codes "file_edited") refl a) in
    let s = of_kind-hit (codes "shell_guard") e [] a in
    let d = get_or e.decision (codes "allow") in
    let one_more = commands-count_decision d t in
    let (pk, fk) = decision_keeps d t in
    rw x (record {
      prompts = omega (arith, p, pk);
      decisions = omega (arith, s, one_more);
      files = omega (arith, f, ap length fk);
    })
first_event e t u (on_other a b c x) =
    let p = of_kind-miss (codes "prompt_classified") e [] a in
    let f = of_kind-miss (codes "file_edited") e [] b in
    let s = of_kind-miss (codes "shell_guard") e [] c in
    rw x (record {
      prompts = omega (arith, p);
      decisions = omega (arith, s);
      files = omega (arith, f);
    })

of_kind-cons :
    (kind : Text) (e : Event) (es : List Event)
    → of_kind kind (e ∷ es) ≡ of_kind kind (e ∷ []) + of_kind kind es
of_kind-cons kind e es = elim (Bool-cases (is_event e kind)) [
  | inl h ↦ omega (arith, of_kind-hit kind e es h, of_kind-hit kind e [] h)
  | inr h ↦ omega (arith, of_kind-miss kind e es h, of_kind-miss kind e [] h)
]

next_event :
    (e : Event) (es : List Event) (t u v : Tally)
    → Adds (e ∷ []) t u
    → Adds es u v
    → Adds (e ∷ es) t v
next_event e es t u v h k = record {
  prompts =
      let c = of_kind-cons (codes "prompt_classified") e es in
      omega (arith, h.prompts, k.prompts, c);
  decisions =
      let c = of_kind-cons (codes "shell_guard") e es in omega (arith, h.decisions, k.decisions, c);
  files = let c = of_kind-cons (codes "file_edited") e es in omega (arith, h.files, k.files, c);
}

count_all-Adds : (es : List Event) (t : Tally) → Adds es t (count_all es t)
unfolding count_all
count_all-Adds [] t = record { prompts = omega arith; decisions = omega arith; files = omega arith }
count_all-Adds (e ∷ es) t =
    next_event e es t (count_event e t) _ (first_event e t (count_event e t) (count_event-Step e t))
      (count_all-Adds es (count_event e t))

-- The summary counts each `prompt_classified` event once and each `shell_guard` event under exactly
-- one decision, and it names at most as many edited files as there are `file_edited` events.
pub summarize_counts :
    (parse : Text → Option ℕ) (seconds : ℕ → Text) (conversation_id status : Text)
    (events : List Event)
    → let s = summarize parse seconds conversation_id status events in
      (s.prompts_classified ≡ of_kind (codes "prompt_classified") events)
      × (s.allowed + (s.denied + s.warned) ≡ of_kind (codes "shell_guard") events)
      × (s.files_edited ≤ of_kind (codes "file_edited") events)
unfolding summarize commands
summarize_counts parse seconds conversation_id status events =
    let a = count_all-Adds events empty_tally in
    (omega (arith, a.prompts), omega (arith, a.decisions), omega (arith, a.files))
