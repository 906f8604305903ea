-- ===== src/Emit/Canonical.antt =====
-- .cursor/hooks/lib/canonical_event.py: the event that every hook emits. `uuid` is `str(uuid.UUID(s))`,
-- or nothing where that raises.
use omnicursor.Prelude.{Option, none, some, List, [], ◌∷◌, if◌then◌else◌, get_or}
use omnicursor.Text.{Text, codes, is_empty}
use omnicursor.Text.Token.{alias_of}
use omnicursor.Json.{Json, Fields, end, field, obj, str, null}

-- `_EVENT_NAME_MAP`
abbrev pub event_name_map : List (Text × Text)
event_name_map =
    (codes "beforeSubmitPrompt", codes "UserPromptSubmit")
    ∷ (codes "stop", codes "Stop")
    ∷ (codes "beforeShellExecution", codes "PreToolUse")
    ∷ (codes "afterFileEdit", codes "PostToolUse")
    ∷ (codes "postToolUse", codes "PostToolUse")
    ∷ (codes "sessionStart", codes "SessionStart")
    ∷ (codes "sessionEnd", codes "SessionEnd")
    ∷ []

-- `normalize_event_name`
unfoldable pub normalize_event_name : Text → Text
normalize_event_name native_hook = alias_of event_name_map native_hook

abbrev pub text_or_null : Option Text → Json
text_or_null none = null
text_or_null (some s) = str s

module _ (uuid : Text → Option Text) where
  -- `_valid_correlation_id`
  unfoldable pub valid_correlation_id : Option Text → Option Text
  valid_correlation_id none = none
  valid_correlation_id (some id) = if is_empty id then none else uuid id

  -- `_valid_session_id`
  unfoldable pub valid_session_id : Text → Text
  valid_session_id id = if is_empty id then [] else get_or (uuid id) []

  -- `build_cursor_event`
  unfoldable pub build_cursor_event : Text → Text → Text → Fields → Option Text → Fields
  build_cursor_event now native_hook session_id payload correlation_id =
      field (codes "event_type") (str (normalize_event_name native_hook)) (
        field (codes "session_id") (str (valid_session_id session_id)) (
          field (codes "correlation_id") (text_or_null (valid_correlation_id correlation_id)) (
            field (codes "timestamp_utc") (str now) (
              field (codes "agent_source") (str (codes "cursor"))
                (field (codes "payload") (obj payload) end)))))
