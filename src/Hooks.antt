-- ===== src/Hooks.antt =====
-- .cursor/hooks/lib/_common.py: the gate in front of every hook, the session files, and what hooks
-- read and answer.
pub mod Mask
pub mod SessionFile
mod Tests
use omnicursor.Prelude.{
  ℕ, Bool, true, false, not, ◌||◌, Option, none, some, List, [], ◌∷◌, any, if◌then◌else◌, get_or,
  keep, map,
}
use omnicursor.Text.{Text, codes, same, is_empty, strip}
use omnicursor.Text.Split.{split}
use omnicursor.Text.Token.{name_token, alias_of}
use omnicursor.Keywords.{member}
use omnicursor.Json.{
  Json, Fields, end, field, obj, str, FileJson, unreadable, malformed, undecodable, holds, Result,
  ok, raised, unicode_error, attribute_error, ◌>>=◌, get, update, set_key,
}

-- `_HOOK_ALIASES`
abbrev pub hook_aliases : List (Text × Text)
hook_aliases =
    (codes "session-start", codes "session-start")
    ∷ (codes "sessionstart", codes "session-start")
    ∷ (codes "start", codes "session-start")
    ∷ (codes "prompt", codes "prompt")
    ∷ (codes "user-prompt-submit", codes "prompt")
    ∷ (codes "beforesubmitprompt", codes "prompt")
    ∷ (codes "shell", codes "shell")
    ∷ (codes "shell-guard", codes "shell")
    ∷ (codes "beforeshellexecution", codes "shell")
    ∷ (codes "edit", codes "edit")
    ∷ (codes "post-edit", codes "edit")
    ∷ (codes "afterfileedit", codes "edit")
    ∷ (codes "tool", codes "tool")
    ∷ (codes "post-tool-use", codes "tool")
    ∷ (codes "posttooluse", codes "tool")
    ∷ (codes "stop", codes "stop")
    ∷ (codes "session-end", codes "session-end")
    ∷ (codes "sessionend", codes "session-end")
    ∷ (codes "end", codes "session-end")
    ∷ []

-- `_normalize_hook_name`
unfoldable pub normalize_hook_name : Text → Text
normalize_hook_name name = alias_of hook_aliases (name_token name)

-- `hooks_disabled`, with the environment and whether ~/.omnicursor/hooks-disabled is there
unfoldable pub hooks_disabled : (Text → Option Text) → Bool → Bool
hooks_disabled environ marker = elim (environ (codes "OMNICURSOR_HOOKS_DISABLE")) [
  | some s ↦ same s (codes "1") || marker
  | none ↦ marker
]

-- `t.strip()` is not empty
abbrev pub is_filled : Text → Bool
is_filled t = not (is_empty (strip t))

-- the names of a mask that is not blank
unfoldable pub mask_names : Text → List Text
mask_names mask = map normalize_hook_name (keep is_filled (split b',' mask))

unfoldable pub mask_allows : Option Text → Text → Bool
mask_allows none hook_name = true
mask_allows (some mask) hook_name =
    if is_filled mask then member (normalize_hook_name hook_name) (mask_names mask) else true

-- `hook_enabled`
unfoldable pub hook_enabled : (Text → Option Text) → Bool → Text → Bool
hook_enabled environ marker hook_name =
    if hooks_disabled environ marker
    then false
    else mask_allows (environ (codes "OMNICURSOR_HOOKS_MASK")) hook_name

-- The directory of session files, each by the conversation that names it. A file that is not there
-- is `unreadable`, as one that cannot be opened.
abbrev pub Store : Type 0
Store = Text → FileJson

-- `data if isinstance(data, dict) else {}`
abbrev pub fields_of : Json → Fields
fields_of (obj fs) = fs
fields_of v = end

-- what `read_session_json` makes of a file
unfoldable pub session_of : FileJson → Result Fields
session_of (holds v) = ok (fields_of v)
session_of unreadable = ok end
session_of malformed = ok end
session_of undecodable = raised unicode_error

-- `read_session_json`
unfoldable pub read_session_json : Store → Text → Result Fields
read_session_json store conversation_id =
    if is_empty conversation_id then ok end else session_of (store conversation_id)

-- `path.write_text(…)`; `writable` says whether it is done without an OSError
unfoldable pub write_file : Store → Bool → Text → Fields → Store
write_file store writable conversation_id fields other =
    if writable
    then (if same conversation_id other then holds (obj fields) else store other)
    else store other

-- `merge_session_json`
unfoldable pub merge_session_json : Store → Bool → Text → Fields → Result Store
merge_session_json store writable conversation_id updates =
    if is_empty conversation_id
    then ok store
    else (read_session_json store conversation_id >>= λ d.
        ok (write_file store writable conversation_id (update d updates)))

-- `read_stdin`: `{}` on any failure
unfoldable pub read_stdin : FileJson → Json
read_stdin (holds v) = v
read_stdin unreadable = obj end
read_stdin malformed = obj end
read_stdin undecodable = obj end

-- `if env: response["env"] = env`
abbrev pub with_env : Fields → Fields → Fields
with_env response end = response
with_env response (field k v env) = set_key (codes "env") (obj (field k v env)) response

-- `write_additional_context`
unfoldable pub write_additional_context : Text → Fields → Fields
write_additional_context content env =
    with_env
      (if is_empty content then end else field (codes "additional_context") (str content) end) env

-- the line of `log_event`: an event's own "timestamp" wins
unfoldable pub log_event : Text → Fields → Fields
log_event now event = update (field (codes "timestamp") (str now) end) event

-- `read_session_context`, for sessions/current.json
unfoldable pub read_session_context : FileJson → Result Json
read_session_context (holds v) = ok v
read_session_context unreadable = ok (obj end)
read_session_context malformed = ok (obj end)
read_session_context undecodable = raised unicode_error

abbrev pub empty : Json
empty = str []

-- `d.get(key, default)` of a document that may be no object
unfoldable pub get_of : Json → Text → Json → Result Json
get_of (obj fs) key default = ok (get_or (get key fs) default)
get_of v key default = raised attribute_error

-- what each hook makes of it: `read_session_context().get("latest_correlation_id", "")`
unfoldable pub correlation_of : FileJson → Result Json
correlation_of current =
    read_session_context current >>= λ s. get_of s (codes "latest_correlation_id") empty

-- the objects among the files of .cursor/agents, in the order of their names
unfoldable pub load_agent_configs : List FileJson → Result (List Fields)
load_agent_configs [] = ok []
load_agent_configs (holds (obj fs) ∷ files) = load_agent_configs files >>= λ rest. ok (fs ∷ rest)
load_agent_configs (holds v ∷ files) = load_agent_configs files
load_agent_configs (unreadable ∷ files) = load_agent_configs files
load_agent_configs (malformed ∷ files) = load_agent_configs files
load_agent_configs (undecodable ∷ files) = raised unicode_error
