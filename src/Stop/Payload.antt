-- ===== src/Stop/Payload.antt =====
-- .cursor/hooks/scripts/stop.py: the payload of a session's outcome.
use omnicursor.Prelude.{ℕ, ◌+◌, Option, none, some, List, [], ◌∷◌, if◌then◌else◌, get_or}
use omnicursor.Json.{Json}
use omnicursor.Text.{Text, codes, is_empty}
use omnicursor.Event.{Event, is_event}
use omnicursor.Stop.{set_add, Summary}

pub record Gathered : Type 0 where
  pub matched_agent : Option Text
  pub matched_confidence : Option ℕ
  pub patterns_injected : ℕ
  pub seen_ids : List Text

abbrev pub or_other {ℓ} : {A : Type ℓ} → Option A → Option A → Option A
or_other none o = o
or_other (some a) o = some a

-- `for pid in ...: if pid: seen_ids[pid] = None`
unfoldable pub gather_ids : List Text → List Text → List Text
gather_ids [] seen = seen
gather_ids (pid ∷ pids) seen = gather_ids pids (if is_empty pid then seen else set_add pid seen)

unfoldable pub gather_event : Event → Gathered → Gathered
gather_event e g = record {
  matched_agent = or_other e.matched_agent g.matched_agent;
  matched_confidence = or_other e.matched_confidence (or_other e.score g.matched_confidence);
  patterns_injected = g.patterns_injected + get_or e.patterns_injected 0;
  seen_ids = gather_ids (get_or e.injected_pattern_ids []) g.seen_ids;
}

-- the loop over the events
unfoldable pub gather : List Event → Gathered → Gathered
gather [] g = g
gather (e ∷ events) g =
    gather events (if is_event e (codes "prompt_classified") then gather_event e g else g)

abbrev pub nothing_gathered : Gathered
nothing_gathered = record {
  matched_agent = none;
  matched_confidence = none;
  patterns_injected = 0;
  seen_ids = [];
}

-- `evt.get("ts") or evt.get("timestamp")`
unfoldable pub event_time : Event → Text
event_time e = let ts = get_or e.ts [] in if is_empty ts then get_or e.timestamp [] else ts

-- the first time of an event
unfoldable pub first_time : List Event → Option Text
first_time [] = none
first_time (e ∷ events) =
    let rest = first_time events in if is_empty (event_time e) then rest else some (event_time e)

pub record OutboxPayload : Type 0 where
  pub correlation_id : Json
  pub conversation_id : Text
  pub started_at : Option Text
  pub ended_at : Text
  pub summary : Summary
  pub matched_agent : Option Text
  pub matched_confidence : Option ℕ
  pub patterns_injected : ℕ
  pub injected_pattern_ids : List Text

-- `_build_outbox_payload`, at the time `ended_at`; the fields that it copies from the summary stay
-- in the summary
unfoldable pub build_outbox_payload : Summary → List Event → Text → Json → Text → OutboxPayload
build_outbox_payload summary events conversation_id correlation_id ended_at =
    let g = gather events nothing_gathered in
    record {
      correlation_id = correlation_id;
      conversation_id = conversation_id;
      started_at = first_time events;
      ended_at = ended_at;
      summary = summary;
      matched_agent = g.matched_agent;
      matched_confidence = g.matched_confidence;
      patterns_injected = g.patterns_injected;
      injected_pattern_ids = g.seen_ids;
    }
