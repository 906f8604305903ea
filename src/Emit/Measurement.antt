-- ===== src/Emit/Measurement.antt =====
-- .cursor/hooks/lib/measurement_emitter.py: the measurement of a phase. Times are whole
-- milliseconds; the identifiers that the code draws at random are arguments.
use omnicursor.Prelude.{ℕ, Bool, Option, none, some, List, [], ◌∷◌, if◌then◌else◌}
use omnicursor.Text.{Text, codes, is_empty}
use omnicursor.Keywords.{member}
use omnicursor.Json.{Json, Fields, end, field, obj, str, num}
use omnicursor.Emit.{Peer, send_event}

abbrev pub valid_phases : List Text
valid_phases =
    codes "plan" ∷ codes "implement" ∷ codes "verify" ∷ codes "review" ∷ codes "release" ∷ []

abbrev pub valid_producer_kinds : List Text
valid_producer_kinds = codes "agent" ∷ codes "human" ∷ codes "unknown" ∷ []

abbrev schema_version : Text
schema_version = codes "1.0"

-- the arguments of `build_measurement_event`
pub record Phase : Type 0 where
  pub run_id : Text
  pub phase : Text
  pub wall_clock_ms : ℕ
  pub ticket_id : Text
  pub repo_id : Text
  pub model_id : Text
  pub producer_kind : Text
  pub phase_id : Text
  pub attempt : ℕ
  pub instance_id : Option Text

-- what the code asks of its surroundings: the environment's version, the clock, two random names
pub record Drawn : Type 0 where
  pub version : Text
  pub now : Text
  pub fresh_instance : Text
  pub fresh_event : Text

-- a value of the list, else the fallback
unfoldable pub one_of : List Text → Text → Text → Text
one_of allowed fallback value = if member value allowed then value else fallback

-- `instance_id or uuid.uuid4().hex[:8]`
unfoldable pub instance_or : Option Text → Text → Text
instance_or none fresh = fresh
instance_or (some id) fresh = if is_empty id then fresh else id

unfoldable pub context_of : Phase → Fields
context_of p = field (codes "ticket_id") (str p.ticket_id) (
    field (codes "repo_id") (str p.repo_id) (
      field (codes "toolchain") (str (codes "cursor")) (
        field (codes "model_id") (str p.model_id) (
          field (codes "producer_kind")
            (str (one_of valid_producer_kinds (codes "unknown") p.producer_kind)) end))))

unfoldable pub producer_of : Drawn → Phase → Fields
producer_of w p = field (codes "schema_version") (str schema_version) (
    field (codes "name") (str (codes "omnicursor-hooks")) (
      field (codes "version") (str w.version)
        (field (codes "instance_id") (str (instance_or p.instance_id w.fresh_instance)) end)))

unfoldable pub duration_of : Phase → Fields
duration_of p =
    field (codes "schema_version") (str schema_version)
      (field (codes "wall_clock_ms") (num p.wall_clock_ms) end)

unfoldable pub payload_of : Drawn → Phase → Fields
payload_of w p = field (codes "schema_version") (str schema_version) (
    field (codes "run_id") (str p.run_id) (
      field (codes "phase") (str (one_of valid_phases (codes "implement") p.phase)) (
        field (codes "phase_id") (str p.phase_id) (
          field (codes "attempt") (num p.attempt) (
            field (codes "context") (obj (context_of p)) (
              field (codes "producer") (obj (producer_of w p))
                (field (codes "duration") (obj (duration_of p)) end)))))))

-- `build_measurement_event`
unfoldable pub build_measurement_event : Drawn → Phase → Fields
build_measurement_event w p = field (codes "schema_version") (str schema_version) (
    field (codes "event_id") (str w.fresh_event) (
      field (codes "event_type") (str (codes "phase_completed")) (
        field (codes "timestamp_iso") (str w.now)
          (field (codes "payload") (obj (payload_of w p)) end))))

-- `emit_phase_metrics`: the message, and whether the daemon took it
unfoldable pub emit_phase_metrics :
    (Text → Text) → (Text → Option Json) → Peer → Drawn → Phase → (Text × Fields) × Bool
emit_phase_metrics decode loads peer w p =
    ((codes "phase.metrics", build_measurement_event w p), send_event decode loads peer)
