-- ===== src/Emit/Tests.antt =====
-- The theorems about what is emitted, at inputs.
use omnicursor.Prelude.{
  ◌≡◌, refl, subst, true, Bool-cases, inl, inr, if◌then◌else◌, Option, none, some, List, [], ◌∷◌,
  arith,
}
use omnicursor.Text.{Text, codes, same, is_empty}
use omnicursor.Keywords.{member}
use omnicursor.Json.{Json, end, field, str, obj}
use omnicursor.Emit.{connected, parse_reply, has_status, send_event}
use omnicursor.Emit.Canonical.{build_cursor_event, valid_session_id, valid_correlation_id}
use omnicursor.Emit.Measurement.{Phase, Drawn, build_measurement_event}
use omnicursor.Emit.Replies.{whole, sent, send_event-whole}
use omnicursor.Emit.Contracts.{
  Accepted, build_cursor_event-Accepted, Measured, build_measurement_event-Measured,
}

-- a parser that reads every text as an acknowledgement
abbrev queued : Text → Option Json
queued s = some (obj (field (codes "status") (str (codes "queued")) end))

abbrev two_chunks : List Text
two_chunks = codes "{}" ∷ codes "\n" ∷ []

send_event-whole_example :
    send_event (λ s. s) queued (connected (sent two_chunks))
    ≡ has_status (λ s. s) queued (codes "queued") (parse_reply (λ s. s) queued (whole two_chunks))
send_event-whole_example =
    send_event-whole (λ s. s) queued two_chunks (unfold is_empty in (refl, (refl, tt)))
      (omega arith)

abbrev canonical_id : Text
canonical_id = codes "6f1c2d3e-0000-4000-8000-0123456789ab"

-- The part of the parser of UUIDs that takes one of them, in its canonical spelling and in braces.
abbrev one_uuid : Text → Option Text
one_uuid s =
    if member s (canonical_id ∷ codes "{6f1c2d3e-0000-4000-8000-0123456789ab}" ∷ [])
    then some canonical_id
    else none

member_itself :
    member canonical_id (canonical_id ∷ codes "{6f1c2d3e-0000-4000-8000-0123456789ab}" ∷ []) ≡ true
unfolding member same
member_itself = refl

one_uuid-canonical : (s t : Text) → one_uuid s ≡ some t → one_uuid t ≡ some t
one_uuid-canonical s t e =
    elim (Bool-cases
      (member s (canonical_id ∷ codes "{6f1c2d3e-0000-4000-8000-0123456789ab}" ∷ []))) [
        | inl f ↦
            let same_id : canonical_id ≡ t = cc (rw f at e) in
            subst (λ x. one_uuid x ≡ some x) same_id (rw member_itself refl)
        | inr f ↦ absurd (cc (rw f at e))
      ]

-- a session in braces and a correlation in its canonical spelling
build_cursor_event-Accepted_example : Accepted one_uuid end (
    build_cursor_event one_uuid
      (codes "now")
      (codes "stop")
      (codes "{6f1c2d3e-0000-4000-8000-0123456789ab}")
      end
      (some canonical_id))
build_cursor_event-Accepted_example =
    build_cursor_event-Accepted one_uuid one_uuid-canonical (codes "now") (codes "stop")
      (codes "{6f1c2d3e-0000-4000-8000-0123456789ab}") end (some canonical_id)

run_ids : Text → Text × Option Text
unfolding valid_session_id valid_correlation_id member same is_empty
run_ids id = (valid_session_id one_uuid id, valid_correlation_id one_uuid (some id))

-- both spellings come to the canonical one
ids_canonical :
    run_ids (codes "{6f1c2d3e-0000-4000-8000-0123456789ab}") ≡ (canonical_id, some canonical_id)
unfolding run_ids
ids_canonical = refl

abbrev drawn : Drawn
drawn = record { version = []; now = []; fresh_instance = []; fresh_event = [] }

abbrev odd_phase : Phase
odd_phase = record {
  run_id = codes "r";
  phase = codes "dance";
  wall_clock_ms = 12;
  ticket_id = [];
  repo_id = [];
  model_id = [];
  producer_kind = codes "robot";
  phase_id = [];
  attempt = 1;
  instance_id = none;
}

build_measurement_event-Measured_example : Measured (build_measurement_event drawn odd_phase)
build_measurement_event-Measured_example = build_measurement_event-Measured drawn odd_phase
