-- ===== src/Prompt/Leaving.antt =====
-- What leaves the machine by the prompt hook, and when it ensures the daemon.
use omnicursor.Prelude.{
  suc, ◌≤◌, ◌≡◌, refl, ap, ◌∙◌, false≢true, Bool, true, false, not, ◌&&◌, some, List, [], ◌∷◌, ◌++◌,
  keep, map, take, length, length-take-le, All, All-append, arith, Bool-cases, inl, inr,
  and-eq-true,
}
use omnicursor.Text.{Text}
use omnicursor.Json.{Fields, Result, ok, raised}
use omnicursor.Redaction.{redact_secrets, sanitize_preview}
use omnicursor.Redaction.Preview.{length-sanitize_preview-le}
use omnicursor.Learned.Session.{RawPattern}
use omnicursor.Selection.{max_patterns}
use omnicursor.Scoring.{Fraction}
use omnicursor.Hooks.{Store}
use omnicursor.Context.Cache.{PatternCache}
use omnicursor.Prompt.Classify.{NamedAgent, Classified}
use omnicursor.Prompt.{
  Disk, PromptInput, PromptStep, session_merged, current_written, daemon_ensured, logged,
  prompt_emitted, preview_emitted, continued, Surroundings, is_first, init_session_fallback,
  filled_id, id_of, relevant_pattern_ids, tell, tell_result, ensure_if, after_session, after_bump,
  after_init, after_agents, prompt_main,
}

-- What a step before the answer keeps to: no more than a preview of the redacted prompt is logged and
-- shown to all, at most five patterns are named, the prompt is emitted redacted, and the daemon is
-- ensured on the first prompt of a conversation that is not in the background.
pub Keeps : Surroundings → PromptInput → PromptStep → Type 0
Keeps w input (session_merged store) = Unit
Keeps w input (current_written current) = Unit
Keeps w input daemon_ensured =
    (is_first w.disk input.conversation_id ≡ true) × (input.is_background_agent ≡ false)
Keeps w input (logged snippet facts) =
    (snippet ≡ sanitize_preview input.prompt 100)
    × (length snippet ≤ 100)
    × (length facts.injected_pattern_ids ≤ 5)
Keeps w input (prompt_emitted text facts) =
    (text ≡ redact_secrets input.prompt) × (length facts.injected_pattern_ids ≤ 5)
Keeps w input (preview_emitted preview n) =
    (preview ≡ sanitize_preview input.prompt 100) × (length preview ≤ 100)
Keeps w input continued = ⊥

length-keep-le : (p : RawPattern → Bool) (ps : List RawPattern) → length (keep p ps) ≤ length ps
length-keep-le p [] = omega arith
length-keep-le p (q ∷ qs) = ground (arith, length-keep-le p qs)

length-ids : (ps : List RawPattern) → length (map id_of ps) ≡ length ps
length-ids [] = refl
length-ids (p ∷ ps) = ap suc (length-ids ps)

few_ids : (ps : List RawPattern) → length (relevant_pattern_ids ps) ≤ 5
unfolding relevant_pattern_ids
few_ids ps = omega (
  arith,
  length-ids (keep filled_id (take max_patterns ps)),
  length-keep-le filled_id (take max_patterns ps),
  length-take-le {0} 5 ps,
)

tell_result-Keeps :
    (w : Surroundings) (input : PromptInput) (c : Classified)
    → (o : Result (List RawPattern × PatternCache)) → All (Keeps w input) (tell_result input c o)
unfolding tell_result tell Keeps
tell_result-Keeps w input c (raised e) = tt
tell_result-Keeps w input c (ok (patterns, cache)) =
    let short = length-sanitize_preview-le input.prompt 100 (omega arith) in
    let few = few_ids patterns in ((refl, short, few), ((refl, few), ((refl, short), tt)))

ensure_if-Keeps :
    (w : Surroundings) (input : PromptInput) (first : Bool)
    → (first ≡ true → is_first w.disk input.conversation_id ≡ true)
    → All (Keeps w input) (ensure_if (first && not input.is_background_agent))
unfolding Keeps
ensure_if-Keeps w input first h = elim (Bool-cases (first && not input.is_background_agent)) [
  | inl e ↦ let (f, b) = and-eq-true first _ e in rw e ((h f, ground (arith, b)), tt)
  | inr e ↦ rw e tt
]

after_session-Keeps :
    (w : Surroundings) (input : PromptInput) (c : Classified) (first : Bool) (o : Result Fields)
    → (first ≡ true → is_first w.disk input.conversation_id ≡ true)
    → All (Keeps w input) (after_session w input c first o)
unfolding after_session
after_session-Keeps w input c first (raised e) h = tt
after_session-Keeps w input c first (ok current) h = (
  unfold Keeps in tt,
  All-append (Keeps w input) _ _ (ensure_if-Keeps w input first h) (tell_result-Keeps w input c _),
)

after_bump-Keeps :
    (w : Surroundings) (input : PromptInput) (c : Classified) (first : Bool) (o : Result Store)
    → (first ≡ true → is_first w.disk input.conversation_id ≡ true)
    → All (Keeps w input) (after_bump w input c first o)
unfolding after_bump
after_bump-Keeps w input c first (raised e) h = tt
after_bump-Keeps w input c first (ok store) h =
    (unfold Keeps in tt, after_session-Keeps w input c first _ h)

abbrev said_first : Result (Bool × Store) → Bool
said_first (raised e) = false
said_first (ok (first, after)) = first

-- The fallback says `true` on a first prompt alone.
first-init :
    (now : Text) (disk : Disk) (store : Store) (id : Text) (first : Bool) (after : Store)
    → init_session_fallback now disk store id ≡ ok (first, after)
    → first ≡ true
    → is_first disk id ≡ true
unfolding init_session_fallback
first-init now disk store id first after e f = elim (Bool-cases (is_first disk id)) [
  | inl k ↦ k
  | inr k ↦
      let e2 : ok (false, store) ≡ ok (first, after) = rw k at e in
      absurd (false≢true (ap said_first e2 ∙ f))
]

after_init-Keeps :
    (w : Surroundings) (input : PromptInput) (c : Classified) (o : Result (Bool × Store))
    → ((first : Bool) (after : Store)
        → o ≡ ok (first, after)
        → first ≡ true
        → is_first w.disk input.conversation_id ≡ true)
    → All (Keeps w input) (after_init w input c o)
unfolding after_init
after_init-Keeps w input c (raised e) h = tt
after_init-Keeps w input c (ok (first, store)) h =
    after_bump-Keeps w input c first _ (h first store refl)

module _ (ratio : Text → Text → Fraction) (percent : Fraction → Text) where
  after_agents-Keeps :
      (w : Surroundings) (input : PromptInput) (o : Result (List NamedAgent))
      → All (Keeps w input) (after_agents ratio percent w input o)
  unfolding after_agents
  after_agents-Keeps w input (raised e) = tt
  after_agents-Keeps w input (ok agents) =
      after_init-Keeps w input _ _ (first-init w.now w.disk w.store input.conversation_id)

  -- Whatever raises inside it, the enabled hook answers `continue` exactly once, at the end. What it
  -- does before that: it ensures the daemon only on a first prompt that is not in the background, it
  -- emits the prompt redacted, it logs and broadcasts at most 100 characters of the redacted prompt,
  -- and it names at most five patterns.
  pub prompt_main-Keeps :
      (w : Surroundings) (input : PromptInput)
      → (steps : List PromptStep) × (prompt_main ratio percent true w (some input)
          ≡ steps ++ (continued ∷ []))
        × All (Keeps w input) steps
  unfolding prompt_main
  prompt_main-Keeps w input =
      (after_agents ratio percent w input w.agents, refl, after_agents-Keeps w input w.agents)
