-- ===== src/SmallHooks/Edits.antt =====
-- src/omnicursor/file_edit.py, and .cursor/hooks/scripts/post-edit.py around it. A linter is what it
-- prints, or nothing where it cannot be run or takes too long; its lines end in a newline.
use omnicursor.Prelude.{
  ℕ, Bool, not, ◌&&◌, Option, none, some, List, [], ◌∷◌, ◌++◌, if◌then◌else◌, keep, length, take,
}
use omnicursor.Text.{Text, codes, same, is_empty, lower, strip, contains}
use omnicursor.Text.Split.{split}
use omnicursor.Json.{Json, Fields, end, field, str, num, FileJson, Result, ok, raised}
use omnicursor.Context.{look_up}
use omnicursor.SmallHooks.{HookStep, logged, emitted, answered}
use omnicursor.Hooks.{correlation_of}

-- `_EXTENSION_MAP`
abbrev pub extension_map : List (Text × Text)
extension_map =
    (codes ".py", codes "python")
    ∷ (codes ".ts", codes "typescript")
    ∷ (codes ".tsx", codes "typescript")
    ∷ (codes ".js", codes "javascript")
    ∷ (codes ".jsx", codes "javascript")
    ∷ (codes ".yaml", codes "yaml")
    ∷ (codes ".yml", codes "yaml")
    ∷ (codes ".json", codes "json")
    ∷ (codes ".md", codes "markdown")
    ∷ []

-- `detect_language`
unfoldable pub detect_language : (Text → Text) → Text → Text
detect_language suffix path = look_up extension_map (lower (suffix path)) (codes "other")

abbrev pub lines_of : Text → List Text
lines_of output = keep (λ ln. not (is_empty (strip ln))) (split 10 (strip output))

-- `run_ruff_check`
unfoldable pub run_ruff_check : Option Text → ℕ
run_ruff_check none = 0
run_ruff_check (some output) = length (lines_of output)

-- `run_tsc_check`
unfoldable pub run_tsc_check : Option Text → ℕ
run_tsc_check none = 0
run_tsc_check (some output) = length (keep (λ ln. contains ln (codes "error TS")) (lines_of output))

-- The event: `edits` is its length where it is a list.
pub record EditInput : Type 0 where
  pub conversation_id : Text
  pub file_path : Text
  pub edits : Option ℕ

pub record EditResult : Type 0 where
  pub conversation_id : Text
  pub file_path : Text
  pub edit_count : ℕ
  pub language : Text
  pub ruff_findings : ℕ
  pub tsc_findings : ℕ

abbrev pub count_or_zero : Option ℕ → ℕ
count_or_zero none = 0
count_or_zero (some n) = n

unfoldable pub language_of : (Text → Text) → Text → Text
language_of suffix path = if is_empty path then codes "other" else detect_language suffix path

module _ (suffix : Text → Text) (ruff tsc : Text → Option Text) where
  -- `handle_edit`
  unfoldable pub handle_edit : EditInput → EditResult
  handle_edit event =
      let language = language_of suffix event.file_path in
      record {
        conversation_id = event.conversation_id;
        file_path = take 500 event.file_path;
        edit_count = count_or_zero event.edits;
        language = language;
        ruff_findings =
            if same language (codes "python") && not (is_empty event.file_path)
            then run_ruff_check (ruff event.file_path)
            else 0;
        tsc_findings =
            if same language (codes "typescript") && not (is_empty event.file_path)
            then run_tsc_check (tsc event.file_path)
            else 0;
      }

unfoldable pub edit_log : EditResult → Json → ℕ → Fields
edit_log r correlation_id hook_ms = field (codes "event") (str (codes "file_edited")) (
    field (codes "conversation_id") (str r.conversation_id) (
      field (codes "file_path") (str r.file_path) (
        field (codes "edit_count") (num r.edit_count) (
          field (codes "language") (str r.language) (
            field (codes "ruff_findings") (num r.ruff_findings) (
              field (codes "tsc_findings") (num r.tsc_findings) (
                field (codes "correlation_id") correlation_id
                  (field (codes "hook_duration_ms") (num hook_ms) end))))))))

unfoldable pub edit_event : EditResult → Json → Fields
edit_event r correlation_id = field (codes "session_id") (str r.conversation_id) (
    field (codes "correlation_id") correlation_id (
      field (codes "tool_name") (str (codes "edit_file")) (
        field (codes "file_path") (str r.file_path) (
          field (codes "language") (str r.language)
            (field (codes "agent_source") (str (codes "cursor")) end)))))

unfoldable pub edit_steps : EditResult → ℕ → Result Json → List HookStep
edit_steps r hook_ms (raised e) = []
edit_steps r hook_ms (ok correlation_id) =
    logged (edit_log r correlation_id hook_ms)
    ∷ emitted (codes "tool.executed") (edit_event r correlation_id)
    ∷ []

-- `main` of post-edit.py, for an event and what handling it gives
unfoldable pub post_edit_main : Bool → EditResult → FileJson → ℕ → List HookStep
post_edit_main enabled r current hook_ms =
    if enabled
    then edit_steps r hook_ms (correlation_of current) ++ (answered end ∷ [])
    else answered end ∷ []
