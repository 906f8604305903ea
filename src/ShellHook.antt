-- ===== src/ShellHook.antt =====
-- .cursor/hooks/scripts/shell-guard.py: the hook around guard_command, as the list of what it does.
-- The duration that it logs besides is not modelled.
pub mod Answer
mod Tests
use omnicursor.Prelude.{
  ℕ, Bool, true, false, not, Option, none, some, List, [], ◌∷◌, ltb, if◌then◌else◌, get_or, length,
  take,
}
use omnicursor.Text.{Text, is_empty}
use omnicursor.Json.{Json, FileJson, Result, ok, raised, ◌>>=◌}
use omnicursor.Hooks.{correlation_of}
use omnicursor.Redaction.{redact_secrets, sanitize_preview}
use omnicursor.ShellGuard.{World, Permission, allow, deny, ask, Response, allowed, guard_command}

pub data Decision : Type 0 where
  denied asked warned passed : Decision

-- The line of the audit log.
pub record Audit : Type 0 where
  pub conversation_id : Text
  pub correlation_id : Json
  pub command : Text
  pub decision : Decision
  pub reason : Text
  pub permission_denied : Bool
  pub command_truncated : Bool

pub data HookStep : Type 0 where
  logged : Audit → HookStep
  answered : Response → HookStep
  -- the attempt to emit "tool.executed", with its preview of the command
  emitted : Text → Json → Decision → Text → HookStep

abbrev pub max_denied_command_log_chars : ℕ
max_denied_command_log_chars = 65536

-- an empty message is left out
unfoldable pub said : Option Text → Option Text
said none = none
said (some s) = if is_empty s then none else some s

-- the answer in Cursor's words
unfoldable pub cursor_response : Response → Response
cursor_response r = record {
  permission = r.permission;
  user_message = said r.user_message;
  agent_message = said r.agent_message;
}

unfoldable pub advised : Option Text → Decision × Text
advised none = (passed, [])
advised (some s) = (warned, s)

abbrev pub first_said : Option Text → Option Text → Text
first_said (some s) o = s
first_said none o = get_or o []

-- `decision` and `reason`
unfoldable pub decide : Permission → Option Text → Option Text → Decision × Text
decide deny user agent = (denied, get_or user [])
decide ask user agent = (asked, first_said user agent)
decide allow user agent = advised agent

-- `logged_command` and `cmd_truncated`
unfoldable pub logged_command : Decision → Text → Text × Bool
logged_command denied redacted =
    if ltb max_denied_command_log_chars (length redacted)
    then (take max_denied_command_log_chars redacted, true)
    else (redacted, false)
logged_command _ redacted = (take 500 redacted, false)

unfoldable pub is_denied : Decision → Bool
is_denied denied = true
is_denied _ = false

unfoldable pub audit_of : Text → Json → Text → Decision × Text → Audit
audit_of conversation_id correlation_id command verdict =
    let line = logged_command verdict.0 (redact_secrets command) in
    record {
      conversation_id = conversation_id;
      correlation_id = correlation_id;
      command = line.0;
      decision = verdict.0;
      reason = verdict.1;
      permission_denied = is_denied verdict.0;
      command_truncated = line.1;
    }

-- what follows an answer of the guard
unfoldable pub respond : Text → Json → Text → Response → List HookStep
respond conversation_id correlation_id command response =
    let shown = cursor_response response in
    let verdict = decide shown.permission shown.user_message shown.agent_message in
    logged (audit_of conversation_id correlation_id command verdict)
    ∷ answered shown
    ∷ emitted conversation_id correlation_id verdict.0 (sanitize_preview command 100)
    ∷ []

-- the outer `except`
unfoldable pub or_allow : Result (List HookStep) → List HookStep
or_allow (ok steps) = steps
or_allow (raised e) = answered allowed ∷ []

-- `main`, with the mask and the standard input read, and with sessions/current.json, which is read
-- before the guard is asked; the configuration is the hook's own file
unfoldable pub shell_main : World → FileJson → FileJson → Bool → Text → Text → List HookStep
shell_main w config current enabled conversation_id command =
    if not enabled
    then answered allowed ∷ []
    else or_allow (
        correlation_of current >>= λ correlation_id.
        (guard_command w (some config) conversation_id command >>= λ response.
        ok (respond conversation_id correlation_id command response)))
