-- ===== src/Stop/Main.antt =====
-- .cursor/hooks/scripts/stop.py: the hook itself, as the list of what it does. Writing a file that
-- cannot be written and emitting to a daemon that does not answer are silent in the code.
use omnicursor.Prelude.{ℕ, Bool, not, Option, none, some, List, [], ◌∷◌, if◌then◌else◌}
use omnicursor.Text.{Text, is_empty}
use omnicursor.Json.{Json, FileJson, ok, raised}
use omnicursor.Hooks.{correlation_of}
use omnicursor.Event.{Event}
use omnicursor.SessionOutcome.{Outcome, failed, outcome_text}
use omnicursor.Learned.{Pattern}
use omnicursor.Learned.Session.{PatternsFile, write_session_patterns}
use omnicursor.Stop.{LogLine, load_events, Summary, aggregate_session, format_recap}
use omnicursor.Stop.Payload.{OutboxPayload, build_outbox_payload}

pub data Effect : Type 0 where
  -- the "session_stopped" line of the local log
  logged : Summary → List Text → Effect
  -- sessions/<conversation_id>.json
  summary_written : Text → Summary → Effect
  recap_written : Text → Effect
  -- learned_patterns.json, where it is written
  patterns_written : Option (List Pattern) → Effect
  outbox_written : OutboxPayload → Effect
  -- the attempts to emit "session.outcome" (with the error of a failed session), the phase metrics
  -- (a malformed time skips them) and "utilization.scoring.requested"
  outcome_emitted : OutboxPayload → Option Text → Effect
  metrics_emitted : Text → Effect
  scoring_emitted : Text → List Text → Effect

-- What the hook reads: the standard input, sessions/current.json, the patterns and the log, twice.
pub record StopInput : Type 0 where
  pub enabled : Bool
  pub conversation_id : Text
  pub status : Text
  pub current : FileJson
  pub first_log : List LogLine
  pub second_log : List LogLine
  pub patterns_file : PatternsFile
  pub now : ℕ
  pub ended_at : Text

unfoldable pub session_error : OutboxPayload → Outcome → Option Text
session_error payload failed = some payload.summary.session_outcome_reason
session_error payload _ = none

-- "utilization.scoring.requested", where a pattern was injected
unfoldable pub scoring : Text → List Text → List Effect
scoring conversation_id [] = []
scoring conversation_id (pid ∷ pids) = scoring_emitted conversation_id (pid ∷ pids) ∷ []

module _ (parse : Text → Option ℕ) (seconds : ℕ → Text) (digest : Text → Text)
    (score_text : ℕ → Text) where
  -- what follows the write of the patterns
  unfoldable pub announce : Text → OutboxPayload → List Effect
  announce conversation_id payload =
      outbox_written payload
      ∷ outcome_emitted payload (session_error payload payload.summary.session_outcome)
      ∷ metrics_emitted conversation_id
      ∷ scoring conversation_id payload.injected_pattern_ids

  -- an error in the patterns file ends the hook there
  unfoldable pub learn : StopInput → List Event → Summary → OutboxPayload → List Effect
  learn input events summary payload =
      elim (write_session_patterns digest score_text input.now input.patterns_file events
        summary.files_edited (outcome_text summary.session_outcome)) [
          | ok r ↦ patterns_written r.1 ∷ announce input.conversation_id payload
          | raised e ↦ []
        ]

  unfoldable pub stop_session : StopInput → Json → Summary → List Event → List Effect
  stop_session input correlation_id summary events =
      let payload =
        build_outbox_payload summary events input.conversation_id correlation_id input.ended_at in
      logged summary payload.injected_pattern_ids
      ∷ summary_written input.conversation_id summary
      ∷ recap_written (format_recap summary)
      ∷ learn input events summary payload

  -- the part of `main` behind the summary
  unfoldable pub stop_summary : StopInput → Json → Summary → List Effect
  stop_summary input correlation_id summary =
      if is_empty input.conversation_id
      then logged summary [] ∷ recap_written (format_recap summary) ∷ []
      else elim (load_events input.conversation_id input.second_log) [
        | ok events ↦ stop_session input correlation_id summary events
        | raised e ↦ []
      ]

  -- `main`: whatever happens, the hook answers `{}`
  unfoldable pub stop_main : StopInput → List Effect
  stop_main input = if not input.enabled then [] else elim (correlation_of input.current) [
    | ok correlation_id ↦
        elim (aggregate_session parse seconds input.conversation_id input.status input.first_log) [
          | ok summary ↦ stop_summary input correlation_id summary
          | raised e ↦ []
        ]
    | raised e ↦ []
  ]
