-- ===== src/SmallHooks/Answers.antt =====
-- What the small hooks let out, and what a session begins with.
use omnicursor.Prelude.{
  ℕ, ◌≡◌, refl, ap, sym, get_or, ◌∙◌, ◌≢◌, ◌⊎◌, true, false, none, some, List, [], ◌∷◌, ◌++◌, All,
  Bool-cases, inl, inr,
}
use omnicursor.Text.{Text, codes, same, is_empty}
use omnicursor.Json.{
  Json, Fields, end, obj, str, null, bool, get, truthy, FileJson, undecodable, Result, ok, raised,
}
use omnicursor.Json.Update.{Unique, or_get}
use omnicursor.Redaction.{redact_secrets}
use omnicursor.Hooks.{Store, empty, correlation_of}
use omnicursor.Hooks.SessionFile.{Merged, merge_session_json-Merged}
use omnicursor.SmallHooks.{
  HookStep, logged, emitted, answered, redacted_error, of_input, end_event, emit_end, end_log,
  end_steps, session_end_main,
}
use omnicursor.SmallHooks.Starting.{StartWorld, started_fields, init_session}

-- The event carries no error, or the redacted text of the input's.
pub Covered : Fields → Fields → Type 0
Covered input event =
    (get (codes "error_message") event ≡ some null)
    ⊎ ((s : Text) × (of_input input (codes "error_message") ≡ str s)
        × (get (codes "error_message") event ≡ some (str (redact_secrets s))))

-- No answer, and no event that is not covered.
pub Quiet : Fields → HookStep → Type 0
Quiet input (logged line) = get (codes "error_message") line ≡ none
Quiet input (emitted kind event) = Covered input event
Quiet input (answered response) = ⊥

error-end_event :
    (input : Fields) (correlation_id v : Json)
    → get (codes "error_message") (end_event input correlation_id v) ≡ some v
unfolding end_event get same
error-end_event input correlation_id v = refl

emit_end-Quiet :
    (input : Fields) (correlation_id v : Json)
    → of_input input (codes "error_message") ≡ v
    → All (Quiet input) (emit_end input correlation_id (redacted_error v))
unfolding redacted_error emit_end Quiet Covered
emit_end-Quiet input correlation_id (str s) e = elim (Bool-cases (is_empty s)) [
  | inl f ↦ rw f (inl (error-end_event input correlation_id null), tt)
  | inr f ↦ rw f (inr (s, e, error-end_event input correlation_id (str (redact_secrets s))), tt)
]
emit_end-Quiet input correlation_id v e = elim (Bool-cases (truthy v)) [
  | inl f ↦ rw f tt
  | inr f ↦ rw f (inl (error-end_event input correlation_id null), tt)
]

end_steps-Quiet :
    (input : Fields) (hook_ms : ℕ) (o : Result Json) → All (Quiet input) (end_steps input hook_ms o)
unfolding end_steps
end_steps-Quiet input hook_ms (raised e) = tt
end_steps-Quiet input hook_ms (ok correlation_id) =
    (unfold Quiet end_log get same in refl, emit_end-Quiet input correlation_id _ refl)

-- Two inputs that differ at most in their error message.
unfoldable pub SameBut : Fields → Fields → Type 0
SameBut a b = (key : Text) → same key (codes "error_message") ≡ false → get key a ≡ get key b

-- the lines of the log among the steps
pub lines : List HookStep → List Fields
lines [] = []
lines (logged line ∷ steps) = line ∷ lines steps
lines (emitted kind event ∷ steps) = lines steps
lines (answered response ∷ steps) = lines steps

lines-append : (s t : List HookStep) → lines (s ++ t) ≡ lines s ++ lines t
unfolding lines
lines-append [] t = refl
lines-append (logged line ∷ s) t = ap (λ l. line ∷ l) (lines-append s t)
lines-append (emitted kind event ∷ s) t = lines-append s t
lines-append (answered response ∷ s) t = lines-append s t

of_input-SameBut :
    (a b : Fields) (key : Text)
    → SameBut a b
    → same key (codes "error_message") ≡ false
    → of_input a key ≡ of_input b key
unfolding SameBut
of_input-SameBut a b key h e = ap (λ o. get_or o empty) (h key e)

-- what the log and the event tell of the input besides the error
record Told (a b : Fields) : Type 0 where
  pub conversation : of_input a (codes "conversation_id") ≡ of_input b (codes "conversation_id")
  pub session : of_input a (codes "session_id") ≡ of_input b (codes "session_id")
  pub reason : of_input a (codes "reason") ≡ of_input b (codes "reason")
  pub status : of_input a (codes "final_status") ≡ of_input b (codes "final_status")
  pub duration : get (codes "duration_ms") a ≡ get (codes "duration_ms") b

SameBut-Told : (a b : Fields) → SameBut a b → Told a b
unfolding same
SameBut-Told a b h = record {
  conversation = of_input-SameBut a b _ h refl;
  session = of_input-SameBut a b _ h refl;
  reason = of_input-SameBut a b _ h refl;
  status = of_input-SameBut a b _ h refl;
  duration = unfold SameBut in h (codes "duration_ms") refl;
}

end_log-Told :
    (a b : Fields) (correlation_id : Json) (hook_ms : ℕ)
    → Told a b
    → end_log a correlation_id hook_ms ≡ end_log b correlation_id hook_ms
unfolding end_log
end_log-Told a b correlation_id hook_ms t =
    rw (t.conversation, t.session, t.reason, t.status, t.duration) refl

end_event-Told :
    (a b : Fields) (correlation_id v : Json)
    → Told a b
    → end_event a correlation_id v ≡ end_event b correlation_id v
unfolding end_event
end_event-Told a b correlation_id v t =
    rw (t.conversation, t.session, t.reason, t.status, t.duration) refl

emit_end-Told :
    (a b : Fields) (correlation_id : Json) (o : Result Json)
    → Told a b
    → emit_end a correlation_id o ≡ emit_end b correlation_id o
unfolding emit_end
emit_end-Told a b c (raised e) t = refl
emit_end-Told a b c (ok v) t =
    ap (λ event. emitted (codes "session.ended") event ∷ []) (end_event-Told a b c v t)

lines-emit_end :
    (a : Fields) (correlation_id : Json) (o : Result Json)
    → lines (emit_end a correlation_id o) ≡ []
unfolding lines emit_end
lines-emit_end a correlation_id (ok v) = refl
lines-emit_end a correlation_id (raised e) = refl

lines-end_steps :
    (a b : Fields) (hook_ms : ℕ) (o : Result Json)
    → Told a b
    → lines (end_steps a hook_ms o) ≡ lines (end_steps b hook_ms o)
unfolding end_steps lines
lines-end_steps a b hook_ms (raised e) t = refl
lines-end_steps a b hook_ms (ok c) t =
    rw (end_log-Told a b c hook_ms t, lines-emit_end a c _, lines-emit_end b c _) refl

-- The enabled hook of a session's end answers exactly once, at the end, whatever it reads. In the event
-- before that, the error message is null or redacted; and the lines of its log are those for any other
-- input that differs in the error message alone.
pub session_end_main-Quiet :
    (input other : Fields) (current : FileJson) (hook_ms : ℕ)
    → SameBut input other
    → ((steps : List HookStep) × (session_end_main true (obj input) current hook_ms
          ≡ steps ++ (answered end ∷ []))
        × All (Quiet input) steps)
      × (lines (session_end_main true (obj input) current hook_ms)
          ≡ lines (session_end_main true (obj other) current hook_ms))
unfolding session_end_main
session_end_main-Quiet input other current hook_ms h =
    let o = correlation_of current in
    (
      (_, refl, end_steps-Quiet input hook_ms o),
      lines-append (end_steps input hook_ms o) _
          ∙ (ap (λ l. l ++ lines (answered end ∷ []))
                (lines-end_steps input other hook_ms o (SameBut-Told input other h))
              ∙ sym (lines-append (end_steps other hook_ms o) _)),
    )

redacted_error-same :
    (s t : Text)
    → is_empty s ≡ is_empty t
    → redact_secrets s ≡ redact_secrets t
    → redacted_error (str s) ≡ redacted_error (str t)
unfolding redacted_error
redacted_error-same s t e r = rw (e, r) refl

end_steps-blind :
    (a b : Fields) (hook_ms : ℕ) (o : Result Json)
    → Told a b
    → redacted_error (of_input a (codes "error_message"))
      ≡ redacted_error (of_input b (codes "error_message"))
    → end_steps a hook_ms o ≡ end_steps b hook_ms o
unfolding end_steps
end_steps-blind a b hook_ms (raised e) t r = refl
end_steps-blind a b hook_ms (ok c) t r =
    rw (end_log-Told a b c hook_ms t, r)
      (ap (λ l. logged (end_log b c hook_ms) ∷ l) (emit_end-Told a b c _ t))

-- Two inputs whose error messages, both or none of them empty, come to the same redacted text, and
-- which are the same besides, make the enabled hook of a session's end do the same: log, emit and answer alike.
pub session_end_main-blind :
    (input other : Fields) (s t : Text) (current : FileJson) (hook_ms : ℕ)
    → SameBut input other
    → of_input input (codes "error_message") ≡ str s
    → of_input other (codes "error_message") ≡ str t
    → is_empty s ≡ is_empty t
    → redact_secrets s ≡ redact_secrets t
    → session_end_main true (obj input) current hook_ms
      ≡ session_end_main true (obj other) current hook_ms
unfolding session_end_main
session_end_main-blind input other s t current hook_ms h left right filled redacted =
    ap (λ l. l ++ (answered end ∷ []))
      (end_steps-blind input other hook_ms (correlation_of current) (SameBut-Told input other h) (
        ap redacted_error left
        ∙ (redacted_error-same s t filled redacted ∙ ap redacted_error (sym right))))

started-Unique : (id now : Text) → Unique (started_fields id now)
unfolding same
started-Unique id now = (refl, (refl, (refl, (refl, (refl, tt)))))

started-ci : (id now : Text) → get (codes "ci_passing") (started_fields id now) ≡ some (bool false)
unfolding get same
started-ci id now = refl

-- Where the files of a conversation can be read and written, its session begins with the started
-- fields merged into what was there, so that `ci_passing` reads back as false.
pub init_session-Merged :
    (w : StartWorld) (conversation_id : Text)
    → is_empty conversation_id ≡ false
    → w.current_writable ≡ true
    → w.writable ≡ true
    → w.store conversation_id ≢ undecodable
    → (after : Store) × (init_session w conversation_id ≡ ok after)
      × (m : Merged w.store after conversation_id (started_fields conversation_id w.now)) × (get
            (codes "ci_passing")
            m.new
          ≡ some (bool false))
unfolding init_session
init_session-Merged w id filled current writable decodes =
    let (after, e, m) =
      merge_session_json-Merged w.store id (started_fields id w.now) filled decodes
        (started-Unique id w.now) in
    (
      after,
      rw (filled, current, writable) e,
      m,
      m.value (codes "ci_passing")
          ∙ ap (λ o. or_get o (get (codes "ci_passing") m.old)) (started-ci id w.now),
    )
