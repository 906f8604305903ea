-- ===== src/SmallHooks/Starting.antt =====
-- .cursor/hooks/scripts/session-start.py, as the list of what it does.
use omnicursor.Prelude.{
  ℕ, Bool, true, false, not, ◌&&◌, Option, none, some, List, [], ◌∷◌, ◌++◌, if◌then◌else◌, length,
}
use omnicursor.Text.{Text, codes, is_empty}
use omnicursor.Json.{Fields, end, field, str, num, null, bool, Result, ok, raised}
use omnicursor.Learned.Session.{RawPattern, PatternsFile}
use omnicursor.Hooks.{Store, merge_session_json, write_additional_context}
use omnicursor.Context.{Prior, fetch_patterns, build_session_context}
use omnicursor.Context.Cache.{PatternCache}

pub record StartInput : Type 0 where
  pub conversation_id : Text
  pub session_id : Text
  pub is_background_agent : Bool
  pub composer_mode : Text

-- What the hook reads besides its input, and whether its files can be written.
pub record StartWorld : Type 0 where
  pub now : Text
  pub current_writable : Bool
  pub writable : Bool
  pub store : Store
  pub daemon_answers : Bool
  pub clock : ℕ
  pub api : Option (List RawPattern)
  pub source : PatternsFile
  pub cache : PatternCache
  pub prior : Option Prior
  pub sentinel : Option Text
  pub hook_ms : ℕ

pub data StartStep : Type 0 where
  -- current.json, and sessions/<id>.json
  current_written : Fields → StartStep
  session_merged : Store → StartStep
  daemon_ensured patterns_synced : StartStep
  logged : Fields → StartStep
  emitted : Text → Fields → StartStep
  answered : Fields → StartStep

abbrev pub started_fields : Text → Text → Fields
started_fields conversation_id started_at = field (codes "conversation_id") (str conversation_id) (
    field (codes "started_at") (str started_at) (
      field (codes "first_prompt_at") null
        (field (codes "last_prompt_at") null (field (codes "ci_passing") (bool false) end))))

-- `_init_session`: the session files behind it
unfoldable pub init_session : StartWorld → Text → Result Store
init_session w conversation_id =
    if not (is_empty conversation_id) && w.current_writable
    then merge_session_json w.store w.writable conversation_id
        (started_fields conversation_id w.now)
    else ok w.store

-- what `_init_session` writes to current.json
unfoldable pub current_steps : StartWorld → Text → List StartStep
current_steps w conversation_id =
    if not (is_empty conversation_id) && w.current_writable
    then current_written (
        field (codes "conversation_id") (str conversation_id)
          (field (codes "started_at") (str w.now) end))
      ∷ []
    else []

-- the daemon and the sync, for a local session
unfoldable pub local_steps : Bool → List StartStep
local_steps is_background_agent =
    if is_background_agent then [] else daemon_ensured ∷ patterns_synced ∷ []

unfoldable pub start_log : StartWorld → StartInput → ℕ → Fields
start_log w input patterns_injected = field (codes "event") (str (codes "session_started")) (
    field (codes "conversation_id") (str input.conversation_id) (
      field (codes "session_id") (str input.session_id) (
        field (codes "is_background_agent") (bool input.is_background_agent) (
          field (codes "composer_mode") (str input.composer_mode) (
            field (codes "daemon_available")
              (bool (not input.is_background_agent && w.daemon_answers))
              (field (codes "patterns_injected") (num patterns_injected)
                (field (codes "hook_duration_ms") (num w.hook_ms) end)))))))

unfoldable pub start_event : StartWorld → StartInput → Fields
start_event w input = field (codes "session_id") (str input.conversation_id) (
    field (codes "cursor_session_id") (str input.session_id) (
      field (codes "is_background_agent") (bool input.is_background_agent) (
        field (codes "composer_mode") (str input.composer_mode) (
          field (codes "started_at") (str w.now)
            (field (codes "agent_source") (str (codes "cursor")) end)))))

-- the log, the event and the answer
unfoldable pub start_fetched :
    StartWorld → StartInput → Result (List RawPattern × PatternCache) → List StartStep
start_fetched w input (raised e) = answered (write_additional_context [] end) ∷ []
start_fetched w input (ok (patterns, cache)) =
    logged (start_log w input (length patterns))
    ∷ emitted (codes "session.started") (start_event w input)
    ∷ answered
        (write_additional_context (build_session_context w.sentinel patterns w.prior true) end)
    ∷ []

unfoldable pub start_initialised : StartWorld → StartInput → Result Store → List StartStep
start_initialised w input (raised e) = answered (write_additional_context [] end) ∷ []
start_initialised w input (ok store) =
    session_merged store
    ∷ (local_steps input.is_background_agent
        ++ start_fetched w input
            (fetch_patterns w.clock w.api w.source w.cache (codes "general") none))

abbrev pub start_of : StartWorld → Option StartInput → List StartStep
start_of w none = answered (write_additional_context [] end) ∷ []
start_of w (some input) =
    current_steps w input.conversation_id
    ++ start_initialised w input (init_session w input.conversation_id)

-- `main`; standard input that holds no object raises at the first `get`
unfoldable pub session_start_main : Bool → StartWorld → Option StartInput → List StartStep
session_start_main enabled w stdin =
    if enabled then start_of w stdin else answered (write_additional_context [] end) ∷ []
