-- ===== src/SmallHooks.antt =====
-- The hooks session-end.py and post-tool-use.py of .cursor/hooks/scripts, as lists of what they do. A
-- raise inside a hook ends the list, but for the answer.
pub mod Edits
pub mod Starting
mod Answers
mod Tests
use omnicursor.Prelude.{
  ℕ, Bool, true, false, Option, none, some, List, [], ◌∷◌, ◌++◌, if◌then◌else◌, get_or, length,
}
use omnicursor.Text.{Text, codes, is_empty}
use omnicursor.Json.{
  Json, Fields, end, field, obj, str, num, null, get, truthy, FileJson, Result, ok, raised,
  attribute_error, type_error, ◌>>=◌,
}
use omnicursor.Redaction.{redact_secrets}
use omnicursor.Learned.Session.{RawPattern, PatternsFile}
use omnicursor.Hooks.{get_of, empty, correlation_of, write_additional_context}
use omnicursor.Context.{infer_domain_from_path, fetch_patterns, build_refresh_context}
use omnicursor.Context.Cache.{PatternCache}

pub data HookStep : Type 0 where
  -- a line of the local log, without its time
  logged : Fields → HookStep
  -- an attempt to emit an event
  emitted : Text → Fields → HookStep
  -- what is written to standard output
  answered : Fields → HookStep

-- `redact_secrets(error_message) if error_message else None`
unfoldable pub redacted_error : Json → Result Json
redacted_error (str s) = ok (if is_empty s then null else str (redact_secrets s))
redacted_error v = if truthy v then raised type_error else ok null

-- the value of a key of the input
abbrev pub of_input : Fields → Text → Json
of_input input key = get_or (get key input) empty

unfoldable pub end_log : Fields → Json → ℕ → Fields
end_log input correlation_id hook_ms = field (codes "event") (str (codes "session_ended")) (
    field (codes "conversation_id") (of_input input (codes "conversation_id")) (
      field (codes "session_id") (of_input input (codes "session_id")) (
        field (codes "correlation_id") correlation_id (
          field (codes "reason") (of_input input (codes "reason")) (
            field (codes "final_status") (of_input input (codes "final_status")) (
              field (codes "duration_ms") (get_or (get (codes "duration_ms") input) null)
                (field (codes "hook_duration_ms") (num hook_ms) end)))))))

unfoldable pub end_event : Fields → Json → Json → Fields
end_event input correlation_id error_message =
    field (codes "session_id") (of_input input (codes "conversation_id")) (
      field (codes "cursor_session_id") (of_input input (codes "session_id")) (
        field (codes "correlation_id") correlation_id (
          field (codes "reason") (of_input input (codes "reason")) (
            field (codes "final_status") (of_input input (codes "final_status")) (
              field (codes "duration_ms") (get_or (get (codes "duration_ms") input) null) (
                field (codes "error_message") error_message
                  (field (codes "agent_source") (str (codes "cursor")) end)))))))

unfoldable pub emit_end : Fields → Json → Result Json → List HookStep
emit_end input correlation_id (raised e) = []
emit_end input correlation_id (ok error_message) =
    emitted (codes "session.ended") (end_event input correlation_id error_message) ∷ []

unfoldable pub end_steps : Fields → ℕ → Result Json → List HookStep
end_steps input hook_ms (raised e) = []
end_steps input hook_ms (ok correlation_id) =
    logged (end_log input correlation_id hook_ms)
    ∷ emit_end input correlation_id (redacted_error (of_input input (codes "error_message")))

-- what is done with an object, or nothing
abbrev pub with_object : (Fields → List HookStep) → Json → List HookStep
with_object f (obj fs) = f fs
with_object f v = []

-- `main` of session-end.py
unfoldable pub session_end_main : Bool → Json → FileJson → ℕ → List HookStep
session_end_main enabled stdin current hook_ms =
    if enabled
    then with_object (λ input. end_steps input hook_ms (correlation_of current)) stdin
      ++ (answered end ∷ [])
    else answered end ∷ []

-- `isinstance(val, str) and val`
abbrev pub path_or : Option Json → Text → Text
path_or (some (str s)) rest = if is_empty s then rest else s
path_or o rest = rest

-- `_tool_file_path`
unfoldable pub tool_file_path : Json → Text
tool_file_path (obj fs) =
    path_or (get (codes "file_path") fs)
      (path_or (get (codes "path") fs) (path_or (get (codes "target_file") fs) []))
tool_file_path v = []

unfoldable pub tool_log : Fields → Json → Text → ℕ → ℕ → Fields
tool_log input correlation_id domain refreshed hook_ms =
    field (codes "event") (str (codes "tool_executed")) (
      field (codes "conversation_id") (of_input input (codes "conversation_id")) (
        field (codes "correlation_id") correlation_id (
          field (codes "tool_name") (of_input input (codes "tool_name")) (
            field (codes "domain") (str domain) (
              field (codes "patterns_refreshed") (num refreshed)
                (field (codes "hook_duration_ms") (num hook_ms) end))))))

unfoldable pub tool_event : Fields → Json → Text → Fields
tool_event input correlation_id domain =
    field (codes "session_id") (of_input input (codes "conversation_id")) (
      field (codes "correlation_id") correlation_id (
        field (codes "tool_name") (of_input input (codes "tool_name")) (
          field (codes "domain") (str domain)
            (field (codes "agent_source") (str (codes "cursor")) end))))

-- What post-tool-use.py reads besides its input.
pub record ToolWorld : Type 0 where
  pub suffix : Text → Text
  pub current : FileJson
  pub clock : ℕ
  pub api : Option (List RawPattern)
  pub source : PatternsFile
  pub cache : PatternCache
  pub sentinel : Option Text
  pub hook_ms : ℕ

unfoldable pub tool_domain : ToolWorld → Fields → Text
tool_domain w input =
    infer_domain_from_path w.suffix
      (tool_file_path (get_or (get (codes "tool_input") input) (obj end)))

-- the steps of the hook, and its `context_block`
unfoldable pub tool_told : ToolWorld → Fields → Json → Text → List RawPattern → List HookStep × Text
tool_told w input correlation_id domain patterns =
    let block = build_refresh_context w.sentinel patterns domain in
    let shown = if is_empty block then 0 else length patterns in
    (
      logged (tool_log input correlation_id domain shown w.hook_ms)
          ∷ emitted (codes "tool.executed") (tool_event input correlation_id domain)
          ∷ [],
      block,
    )

unfoldable pub tool_fetched :
    ToolWorld
    → Fields
    → Json
    → Text
    → Result (List RawPattern × PatternCache)
    → List HookStep × Text
tool_fetched w input correlation_id domain (raised e) = ([], [])
tool_fetched w input correlation_id domain (ok (patterns, cache)) =
    tool_told w input correlation_id domain patterns

unfoldable pub tool_body : ToolWorld → Fields → Result Json → List HookStep × Text
tool_body w input (raised e) = ([], [])
tool_body w input (ok correlation_id) =
    let domain = tool_domain w input in
    tool_fetched w input correlation_id domain
      (fetch_patterns w.clock w.api w.source w.cache domain none)

abbrev pub tool_of : ToolWorld → Json → List HookStep × Text
tool_of w (obj input) = tool_body w input (correlation_of w.current)
tool_of w v = ([], [])

-- `main` of post-tool-use.py
unfoldable pub post_tool_main : Bool → ToolWorld → Json → List HookStep
post_tool_main enabled w stdin =
    if enabled
    then (tool_of w stdin).0 ++ (answered (write_additional_context (tool_of w stdin).1 end) ∷ [])
    else answered (write_additional_context [] end) ∷ []
