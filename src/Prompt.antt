-- ===== src/Prompt.antt =====
-- .cursor/hooks/scripts/user-prompt-submit.py: the hook itself, as the list of what it does. A raise
-- inside it ends the list, but for the answer. Scores are logged exactly, not rounded; the time that
-- the hook took is not modelled.
pub mod Classify
mod Leaving
mod Tests
use omnicursor.Prelude.{
  ℕ, Bool, true, false, not, ◌&&◌, ◌||◌, Option, none, some, List, [], ◌∷◌, ◌++◌, if◌then◌else◌,
  get_or, keep, map, take, length,
}
use omnicursor.Text.{Text, codes, is_empty}
use omnicursor.Json.{
  Json, Fields, end, field, obj, str, null, bool, FileJson, unreadable, malformed, undecodable,
  holds, Result, ok, raised, type_error, ◌>>=◌, set_key,
}
use omnicursor.Redaction.{redact_secrets, sanitize_preview}
use omnicursor.Learned.Session.{RawPattern, PatternsFile}
use omnicursor.Selection.{prompt_keyword_set, max_patterns}
use omnicursor.Scoring.{Fraction}
use omnicursor.Hooks.{Store, merge_session_json}
use omnicursor.Context.{agent_domain, fetch_patterns}
use omnicursor.Context.Cache.{PatternCache}
use omnicursor.Prompt.Classify.{NamedAgent, Classified, estimate_complexity, classify_prompt}

-- What the session files allow: the directory of the conversation can be made, its flag is there,
-- the flag can be made, sessions/<id>.json can be written.
pub record Disk : Type 0 where
  pub dir_made : Bool
  pub flag_there : Bool
  pub touched : Bool
  pub writable : Bool

pub record PromptInput : Type 0 where
  pub prompt : Text
  pub conversation_id : Text
  pub generation_id : Text
  pub is_background_agent : Bool

-- What is logged and emitted of a prompt besides its text.
pub record Facts : Type 0 where
  pub generation_id : Text
  pub classified : Classified
  pub injected_pattern_ids : List Text
  pub delegation_required : Bool

pub data PromptStep : Type 0 where
  -- sessions/<id>.json and current.json
  session_merged : Store → PromptStep
  current_written : Fields → PromptStep
  daemon_ensured : PromptStep
  -- "prompt_classified" with its snippet, "cursor.hook.prompt" with the prompt, "prompt.submitted"
  -- with its preview and the prompt's length
  logged : Text → Facts → PromptStep
  prompt_emitted : Text → Facts → PromptStep
  preview_emitted : Text → ℕ → PromptStep
  -- `{"continue": true}`
  continued : PromptStep

-- What the hook reads besides its input.
pub record Surroundings : Type 0 where
  pub now : Text
  pub clock : ℕ
  pub correlation_id : Text
  pub agents : Result (List NamedAgent)
  pub disk : Disk
  pub store : Store
  pub current : FileJson
  pub api : Option (List RawPattern)
  pub source : PatternsFile
  pub cache : PatternCache

abbrev pub first_fields : Text → Text → Fields
first_fields conversation_id now = field (codes "conversation_id") (str conversation_id) (
    field (codes "started_at") (str now) (
      field (codes "first_prompt_at") (str now)
        (field (codes "last_prompt_at") (str now) (field (codes "ci_passing") (bool false) end))))

-- `_session_dir` gives a directory, and there is no flag yet that could be made
unfoldable pub is_first : Disk → Text → Bool
is_first disk conversation_id =
    not (is_empty conversation_id) && (disk.dir_made && (not disk.flag_there && disk.touched))

-- `_init_session_fallback`: whether this call has initialised the session, and the files behind it
unfoldable pub init_session_fallback : Text → Disk → Store → Text → Result (Bool × Store)
init_session_fallback now disk store conversation_id =
    if is_first disk conversation_id
    then (merge_session_json store disk.writable conversation_id (first_fields conversation_id now)
        >>= λ after. ok (true, after))
    else ok (false, store)

-- `_bump_session_prompt_timestamp`
unfoldable pub bump_session_prompt_timestamp : Text → Disk → Store → Text → Result Store
bump_session_prompt_timestamp now disk store conversation_id =
    merge_session_json store disk.writable conversation_id
      (field (codes "last_prompt_at") (str now) end)

-- the document that `_update_session_correlation` starts from
unfoldable pub current_fields : FileJson → Result Fields
current_fields (holds (obj fs)) = ok fs
current_fields (holds v) = raised type_error
current_fields unreadable = ok end
current_fields malformed = ok end
current_fields undecodable = ok end

-- `_update_session_correlation`: what is written to current.json
unfoldable pub update_session_correlation : FileJson → Text → Text → Result Fields
update_session_correlation current conversation_id correlation_id = current_fields current >>= λ d.
    ok (
      set_key (codes "latest_correlation_id") (str correlation_id)
        (set_key (codes "conversation_id") (str conversation_id) d))

abbrev pub filled_id : RawPattern → Bool
filled_id p = not (is_empty (get_or p.pattern_id []))

abbrev pub id_of : RawPattern → Text
id_of p = get_or p.pattern_id []

-- `relevant_pattern_ids`
unfoldable pub relevant_pattern_ids : List RawPattern → List Text
relevant_pattern_ids patterns = map id_of (keep filled_id (take max_patterns patterns))

-- the log and the two events
unfoldable pub tell : PromptInput → Facts → List PromptStep
tell input facts =
    logged (sanitize_preview input.prompt 100) facts
    ∷ prompt_emitted (redact_secrets input.prompt) facts
    ∷ preview_emitted (sanitize_preview input.prompt 100) (length input.prompt)
    ∷ []

-- what follows the fetch of the patterns
unfoldable pub tell_result :
    PromptInput → Classified → Result (List RawPattern × PatternCache) → List PromptStep
tell_result input c (raised e) = []
tell_result input c (ok (patterns, cache)) = tell input (record {
  generation_id = input.generation_id;
  classified = c;
  injected_pattern_ids = relevant_pattern_ids patterns;
  delegation_required = estimate_complexity input.prompt;
})

abbrev pub ensure_if : Bool → List PromptStep
ensure_if b = if b then daemon_ensured ∷ [] else []

unfoldable pub fetch_for :
    Surroundings → PromptInput → Classified → Result (List RawPattern × PatternCache)
fetch_for w input c =
    fetch_patterns w.clock w.api w.source w.cache (agent_domain c.agent_name)
      (some (prompt_keyword_set input.prompt))

-- what follows the session files
unfoldable pub after_session :
    Surroundings → PromptInput → Classified → Bool → Result Fields → List PromptStep
after_session w input c first (raised e) = []
after_session w input c first (ok current) =
    current_written current
    ∷ (ensure_if (first && not input.is_background_agent)
        ++ tell_result input c (fetch_for w input c))

unfoldable pub after_bump :
    Surroundings → PromptInput → Classified → Bool → Result Store → List PromptStep
after_bump w input c first (raised e) = []
after_bump w input c first (ok store) =
    session_merged store
    ∷ after_session w input c first
        (update_session_correlation w.current input.conversation_id w.correlation_id)

unfoldable pub after_init :
    Surroundings → PromptInput → Classified → Result (Bool × Store) → List PromptStep
after_init w input c (raised e) = []
after_init w input c (ok (first, store)) =
    after_bump w input c first
      (bump_session_prompt_timestamp w.now w.disk store input.conversation_id)

module _ (ratio : Text → Text → Fraction) (percent : Fraction → Text) where
  unfoldable pub after_agents :
      Surroundings → PromptInput → Result (List NamedAgent) → List PromptStep
  after_agents w input (raised e) = []
  after_agents w input (ok agents) =
      after_init w input (classify_prompt ratio percent input.prompt agents)
        (init_session_fallback w.now w.disk w.store input.conversation_id)

  abbrev pub with_input : Surroundings → Option PromptInput → List PromptStep
  with_input w none = []
  with_input w (some input) = after_agents w input w.agents

  -- `main`; standard input that holds no object raises at the first `get`
  unfoldable pub prompt_main : Bool → Surroundings → Option PromptInput → List PromptStep
  prompt_main enabled w stdin =
      if enabled then with_input w stdin ++ (continued ∷ []) else continued ∷ []
