-- ===== src/Emit/Contracts.antt =====
-- The shapes of what is emitted.
use omnicursor.Prelude.{
  ◌≡◌, refl, Option, none, some, List, [], ◌∷◌, Bool-cases, inl, inr, ◌⊎◌, Option-cases, Has,
}
use omnicursor.Text.{Text, codes, same, is_empty}
use omnicursor.Keywords.{member, member_iff}
use omnicursor.Json.{Json, Fields, end, field, obj, str, get}
use omnicursor.Emit.Canonical.{
  valid_correlation_id, valid_session_id, build_cursor_event, text_or_null,
}
use omnicursor.Emit.Measurement.{
  valid_phases, valid_producer_kinds, Phase, Drawn, one_of, context_of, payload_of,
  build_measurement_event,
}

abbrev pub keys : Fields → List Text
keys end = []
keys (field k v fs) = k ∷ keys fs

abbrev pub canonical_keys : List Text
canonical_keys =
    codes "event_type"
    ∷ codes "session_id"
    ∷ codes "correlation_id"
    ∷ codes "timestamp_utc"
    ∷ codes "agent_source"
    ∷ codes "payload"
    ∷ []

-- A text is empty, or a UUID in its canonical spelling.
abbrev pub EmptyOrUuid : (Text → Option Text) → Text → Type 0
EmptyOrUuid uuid s = (s ≡ []) ⊎ (uuid s ≡ some s)

-- What the consumer asks of an event.
pub record Accepted (uuid : Text → Option Text) (payload event : Fields) : Type 0 where
  pub six_keys : keys event ≡ canonical_keys
  pub session : Text
  pub session_id : get (codes "session_id") event ≡ some (str session)
  pub session_ok : EmptyOrUuid uuid session
  pub correlation : Option Text
  pub correlation_id : get (codes "correlation_id") event ≡ some (text_or_null correlation)
  pub correlation_ok : (id : Text) → correlation ≡ some id → uuid id ≡ some id
  pub carries : get (codes "payload") event ≡ some (obj payload)

session-ok :
    (uuid : Text → Option Text)
    → ((s t : Text) → uuid s ≡ some t → uuid t ≡ some t)
    → (id : Text) → EmptyOrUuid uuid (valid_session_id uuid id)
unfolding valid_session_id
session-ok uuid canonical id = elim (Bool-cases (is_empty id)) [
  | inl e ↦ rw e (inl refl)
  | inr e ↦ elim (Option-cases (uuid id)) [
    | inl n ↦ rw (e, n) (inl refl)
    | inr (t, f) ↦ rw (e, f) (inr (canonical id t f))
  ]
]

correlation-ok :
    (uuid : Text → Option Text)
    → ((s t : Text) → uuid s ≡ some t → uuid t ≡ some t)
    → (o : Option Text) (id : Text) → valid_correlation_id uuid o ≡ some id
    → uuid id ≡ some id
unfolding valid_correlation_id
correlation-ok uuid canonical none id e = absurd (cc (e))
correlation-ok uuid canonical (some s) id e = elim (Bool-cases (is_empty s)) [
  | inl f ↦ absurd (cc (e, f))
  | inr f ↦ canonical s id (cc (e, f))
]

-- Whatever a hook passes, its event has exactly the six keys of the contract, a session that is
-- empty or a canonical UUID, a correlation that is null or a canonical UUID, and the payload as it
-- was. The parser of UUIDs leaves its own spelling as it is.
pub build_cursor_event-Accepted :
    (uuid : Text → Option Text)
    → ((s t : Text) → uuid s ≡ some t → uuid t ≡ some t)
    → (now native_hook session_id : Text) (payload : Fields) (correlation_id : Option Text)
    → Accepted uuid payload
        (build_cursor_event uuid now native_hook session_id payload correlation_id)
unfolding build_cursor_event get same
build_cursor_event-Accepted uuid canonical now native_hook session_id payload correlation_id =
    record {
      six_keys = refl;
      session = valid_session_id uuid session_id;
      session_id = refl;
      session_ok = session-ok uuid canonical session_id;
      correlation = valid_correlation_id uuid correlation_id;
      correlation_id = refl;
      correlation_ok = correlation-ok uuid canonical correlation_id;
      carries = refl;
    }

one_of-Has :
    (allowed : List Text) (fallback value : Text)
    → Has fallback allowed
    → Has (one_of allowed fallback value) allowed
unfolding one_of
one_of-Has allowed fallback value h = elim (Bool-cases (member value allowed)) [
  | inl e ↦ rw e ((member_iff value allowed).0 e)
  | inr e ↦ rw e h
]

-- a value of a document, by the keys to it
abbrev pub at : List Text → Json → Option Json
at [] v = some v
at (k ∷ ks) (obj fs) = elim (get k fs) [ some v ↦ at ks v | none ↦ none ]
at (k ∷ ks) v = none

-- A measurement has a valid phase and a valid kind of producer.
pub record Measured (event : Fields) : Type 0 where
  pub phase : Text
  pub phase_at : at (codes "payload" ∷ codes "phase" ∷ []) (obj event) ≡ some (str phase)
  pub phase_valid : Has phase valid_phases
  pub kind : Text
  pub kind_at :
      at (codes "payload" ∷ codes "context" ∷ codes "producer_kind" ∷ []) (obj event)
      ≡ some (str kind)
  pub kind_valid : Has kind valid_producer_kinds

-- Whatever its arguments are, a measurement has one of the five phases and one of the three kinds of
-- producer, each where the contract has it.
pub build_measurement_event-Measured :
    (w : Drawn) (p : Phase) → Measured (build_measurement_event w p)
unfolding build_measurement_event payload_of context_of get same
build_measurement_event-Measured w p = record {
  phase = one_of valid_phases (codes "implement") p.phase;
  phase_at = refl;
  phase_valid = one_of-Has valid_phases (codes "implement") p.phase (inr (inl refl));
  kind = one_of valid_producer_kinds (codes "unknown") p.producer_kind;
  kind_at = refl;
  kind_valid =
      one_of-Has valid_producer_kinds (codes "unknown") p.producer_kind (inr (inr (inl refl)));
}
