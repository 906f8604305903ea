-- ===== src/ShellHook/Answer.antt =====
-- What the hook answers and logs.
use omnicursor.Prelude.{
  ℕ, ◌≤◌, ◌≡◌, refl, ap, sym, ◌↔◌, ◌⊎◌, Bool, true, false, Option, none, some, List, [], ◌∷◌, ◌++◌,
  ltb, length, length-take-le, take, inl, inr, Bool-cases, All, arith,
}
use omnicursor.Text.{Text, codes, lower}
use omnicursor.Json.{
  Json, obj, Fields, FileJson, unreadable, malformed, undecodable, holds, Error, Result, ok, raised,
  ◌>>=◌,
}
use omnicursor.Hooks.{get_of, read_session_context, correlation_of}
use omnicursor.Redaction.{redact_secrets}
use omnicursor.ShellGuard.{
  World, Permission, allow, deny, ask, Response, allowed, guard_command, load_dod_config,
  hard_message,
}
use omnicursor.ShellGuard
use omnicursor.ShellGuard.Answers.{no_verify_denied}
use omnicursor.ShellHook.{
  Decision, denied, asked, warned, passed, Audit, HookStep, logged, answered, emitted, said,
  cursor_response, advised, decide, logged_command, audit_of, respond, or_allow, shell_main,
}

-- the answers among the steps
pub answers : List HookStep → List Response
answers [] = []
answers (logged a ∷ steps) = answers steps
answers (answered r ∷ steps) = r ∷ answers steps
answers (emitted c id d p ∷ steps) = answers steps

-- The session file lets the hook go on: it is not there, no JSON, or an object.
pub Session : FileJson → Type 0
Session unreadable = Unit
Session malformed = Unit
Session undecodable = ⊥
Session (holds (obj fs)) = Unit
Session (holds v) = ⊥

correlation_of-cases :
    (current : FileJson)
    → ((c : Json) × (correlation_of current ≡ ok c) × Session current)
      ⊎ ((e : Error) × (correlation_of current ≡ raised e) × ¬ Session current)
unfolding correlation_of read_session_context get_of Session
correlation_of-cases unreadable = inl (_, refl, tt)
correlation_of-cases malformed = inl (_, refl, tt)
correlation_of-cases undecodable = inr (_, refl, λ h. h)
correlation_of-cases (holds (obj fs)) = inl (_, refl, tt)
correlation_of-cases (holds v) = inr (_, refl, λ h. h)

-- The one answer of the hook.
module _ (w : World) (config current : FileJson) (enabled : Bool) (conversation_id command : Text)
    (given : List Response) where
  pub data OneAnswer : Type 0 where
    off : enabled ≡ false → given ≡ allowed ∷ [] → OneAnswer
    no_session : enabled ≡ true → ¬ Session current → given ≡ allowed ∷ [] → OneAnswer
    guard_raises :
        (e : Error)
        → enabled ≡ true
        → Session current
        → guard_command w (some config) conversation_id command ≡ raised e
        → given ≡ allowed ∷ []
        → OneAnswer
    guarded :
        (r shown : Response)
        → enabled ≡ true
        → Session current
        → guard_command w (some config) conversation_id command ≡ ok r
        → shown.permission ≡ r.permission
        → given ≡ shown ∷ []
        → OneAnswer

guarded-OneAnswer :
    (w : World) (config current : FileJson) (conversation_id command : Text) (c : Json)
    (o : Result Response)
    → Session current
    → guard_command w (some config) conversation_id command ≡ o
    → OneAnswer w config current true conversation_id command
        (answers (or_allow (o >>= λ r. ok (respond conversation_id c command r))))
unfolding or_allow respond answers cursor_response
guarded-OneAnswer w config current conversation_id command c (ok r) s e =
    guarded r (cursor_response r) refl s e refl refl
guarded-OneAnswer w config current conversation_id command c (raised x) s e =
    guard_raises x refl s e refl

-- The hook answers exactly once. Disabled, it answers `allow`, and so it does where the session file is no
-- UTF-8 or JSON but no object, before the guard is asked. Else it answers with the permission of the guard,
-- and with `allow` where the guard raises.
pub answers-shell_main :
    (w : World) (config current : FileJson) (enabled : Bool) (conversation_id command : Text)
    → OneAnswer w config current enabled conversation_id command
        (answers (shell_main w config current enabled conversation_id command))
unfolding shell_main
answers-shell_main w config current false conversation_id command =
    off refl (unfold answers in refl)
answers-shell_main w config current true conversation_id command =
    elim (correlation_of-cases current) [
      | inl (c, e, s) ↦ rw e (guarded-OneAnswer w config current conversation_id command c _ s refl)
      | inr (x, e, no_object) ↦ rw e (no_session refl no_object (unfold or_allow answers in refl))
    ]

-- The line holds a prefix of the redacted command, of a bounded length, and it says `denied` for a
-- denial alone.
pub record Faithful (correlation_id : Json) (command : Text) (permission : Permission) (a : Audit)
    : Type 0 where
  pub correlated : a.correlation_id ≡ correlation_id
  pub cut : ℕ
  pub redacted : a.command ≡ take cut (redact_secrets command)
  pub bounded : length a.command ≤ 65536
  pub agrees : (a.decision ≡ denied) ↔ (permission ≡ deny)

-- Each line of the audit log is faithful to the command and to the answers.
pub Audited : Json → Text → Permission → HookStep → Type 0
Audited correlation_id command permission (logged a) = Faithful correlation_id command permission a
Audited correlation_id command permission (answered r) = r.permission ≡ permission
Audited correlation_id command permission (emitted c id d p) =
    (id ≡ correlation_id) × ((d ≡ denied) ↔ (permission ≡ deny))

take-length : (s : Text) → take (length s) s ≡ s
take-length [] = refl
take-length (c ∷ s) = ap (λ t. c ∷ t) (take-length s)

-- a bounded prefix of the text
record Prefix (s t : Text) : Type 0 where
  pub cut : ℕ
  pub is_cut : t ≡ take cut s
  pub bounded : length t ≤ 65536

short : (s : Text) → Prefix s (take 500 s)
short s = record {
  cut = 500;
  is_cut = refl;
  bounded = let le = length-take-le {0} 500 s in omega (arith, le);
}

logged_command-Prefix : (d : Decision) (s : Text) → Prefix s (logged_command d s).0
unfolding logged_command
logged_command-Prefix denied s = elim (Bool-cases (ltb 65536 (length s))) [
  | inl e ↦ rw e (record { cut = 65536; is_cut = refl; bounded = length-take-le {0} 65536 s })
  | inr e ↦
      rw e (record { cut = length s; is_cut = sym (take-length s); bounded = ground (arith, e) })
]
logged_command-Prefix asked s = short s
logged_command-Prefix warned s = short s
logged_command-Prefix passed s = short s

advised-denied : (o : Option Text) → ((advised o).0 ≡ denied) ↔ (allow ≡ deny)
unfolding advised
advised-denied none = (λ h. cc (h), λ h. cc (h))
advised-denied (some s) = (λ h. cc (h), λ h. cc (h))

decide-denied :
    (p : Permission) (user agent : Option Text) → ((decide p user agent).0 ≡ denied) ↔ (p ≡ deny)
unfolding decide
decide-denied allow user agent = advised-denied agent
decide-denied deny user agent = (λ _. refl, λ _. refl)
decide-denied ask user agent = (λ h. cc (h), λ h. cc (h))

audit_of-Faithful :
    (conversation_id : Text) (c : Json) (command : Text) (p : Permission) (v : Decision × Text)
    → (v.0 ≡ denied) ↔ (p ≡ deny)
    → Faithful c command p (audit_of conversation_id c command v)
unfolding audit_of
audit_of-Faithful conversation_id c command p v h =
    let k = logged_command-Prefix v.0 (redact_secrets command) in
    record { correlated = refl; cut = k.cut; redacted = k.is_cut; bounded = k.bounded; agrees = h }

respond-Audited :
    (conversation_id : Text) (c : Json) (command : Text) (r : Response)
    → All (Audited c command r.permission) (respond conversation_id c command r)
unfolding respond cursor_response Audited
respond-Audited conversation_id c command r =
    let h = decide-denied r.permission (said r.user_message) (said r.agent_message) in
    (audit_of-Faithful conversation_id c command r.permission _ h, (refl, ((refl, h), tt)))

-- Where the session file gives a correlation and the guard an answer, what the enabled hook logs of
-- the command is a prefix of the redacted command, at most 65536 characters of it, whatever the command
-- is. The line and the emitted event carry the correlation and say `deny` exactly if the guard denies,
-- and the answer has the guard's permission.
pub shell_main-Audited :
    (w : World) (config current : FileJson) (conversation_id command : Text) (c : Json)
    (r : Response)
    → correlation_of current ≡ ok c
    → guard_command w (some config) conversation_id command ≡ ok r
    → All
        (Audited c command r.permission)
        (shell_main w config current true conversation_id command)
unfolding shell_main or_allow
shell_main-Audited w config current conversation_id command c r correlated e =
    rw (correlated, e) (respond-Audited conversation_id c command r)

-- The enabled hook denies a command that holds `--no-verify`, in any case and at any place, where
-- the configuration loads and the session file gives a correlation.
pub shell_main-no_verify :
    (w : World) (cfg : Fields) (config current : FileJson) (conversation_id pre word post : Text)
    (c : Json)
    → lower word ≡ codes "--no-verify"
    → load_dod_config (some config) ≡ ok cfg
    → correlation_of current ≡ ok c
    → (r : Response) × (answers
          (shell_main w config current true conversation_id (pre ++ (word ++ post)))
        ≡ r ∷ [])
      × (r.permission ≡ deny)
unfolding shell_main or_allow respond answers cursor_response
shell_main-no_verify w cfg config current conversation_id pre word post c spelled loaded
      correlated =
    let (q, _, denial) =
      no_verify_denied w cfg conversation_id pre word post (some config) spelled loaded in
    (cursor_response (ShellGuard.denied (hard_message q)), rw (correlated, denial) refl, refl)
