-- ===== src/Context.antt =====
-- .cursor/hooks/lib/context_injection.py: the text that hooks inject into a conversation, and where
-- its patterns come from. The reply of the intelligence service is given, and so are pathlib's
-- `suffix` and the fresh sentinel of the proof mode.
pub mod Cache
mod Injected
mod Fetching
mod Tests
use omnicursor.Prelude.{
  ℕ, Bool, true, false, not, ◌&&◌, ◌||◌, Option, none, some, List, [], ◌∷◌, ◌++◌, if◌then◌else◌,
  get_or, map, take, drop, length,
}
use omnicursor.Text.{Text, codes, same, is_empty, lower, starts_with, replace_char, join, decimal}
use omnicursor.Text.Token.{alias_of}
use omnicursor.Json.{Result, ok, raised, ◌>>=◌}
use omnicursor.Redaction.{sanitize_pattern_text}
use omnicursor.Learned.Session.{
  RawPattern, PatternsFile, absent, unparsed, undecodable, no_object, holds,
}
use omnicursor.Selection.{filter_patterns_by_relevance, max_patterns}
use omnicursor.Context.Cache.{PatternCache, cache_get, is_warm, is_stale, warm_from_json}

-- the first prefix that is there goes
unfoldable pub drop_prefix : List Text → Text → Text
drop_prefix [] s = s
drop_prefix (p ∷ ps) s =
    let rest = drop_prefix ps s in if starts_with s p then drop (length p) s else rest

abbrev pub or_general : Text → Text
or_general s = if is_empty s then codes "general" else s

-- `agent_domain`
unfoldable pub agent_domain : Text → Text
agent_domain agent_name = or_general (
    replace_char b'-' b'_'
      (drop_prefix (codes "agent-" ∷ codes "omnicursor-" ∷ []) (lower agent_name)))

-- `_EXT_DOMAIN`
abbrev pub ext_domain : List (Text × Text)
ext_domain =
    (codes ".py", codes "python")
    ∷ (codes ".ts", codes "typescript")
    ∷ (codes ".tsx", codes "typescript")
    ∷ (codes ".js", codes "javascript")
    ∷ (codes ".jsx", codes "javascript")
    ∷ (codes ".go", codes "go")
    ∷ (codes ".rs", codes "rust")
    ∷ (codes ".md", codes "docs")
    ∷ (codes ".yaml", codes "config")
    ∷ (codes ".yml", codes "config")
    ∷ (codes ".json", codes "config")
    ∷ (codes ".sql", codes "database")
    ∷ []

-- `table.get(key, default)`
unfoldable pub look_up : List (Text × Text) → Text → Text → Text
look_up [] key default = default
look_up ((k, v) ∷ table) key default = if same k key then v else look_up table key default

-- `infer_domain_from_path`
unfoldable pub infer_domain_from_path : (Text → Text) → Text → Text
infer_domain_from_path suffix file_path =
    if is_empty file_path
    then codes "general"
    else look_up ext_domain (lower (suffix file_path)) (codes "general")

-- `source.exists()`: the seed patterns stand in for learned ones that are not there
abbrev pub source_of : PatternsFile → PatternsFile → PatternsFile
source_of absent seed = seed
source_of learned seed = learned

-- a cache that is cold or stale is read from its file
unfoldable pub refreshed : ℕ → PatternsFile → PatternCache → Result PatternCache
refreshed now source cache =
    if not (is_warm cache) || is_stale now cache
    then (warm_from_json now source cache >>= λ r. ok r.1)
    else ok cache

-- `a or b` on lists
abbrev pub nonempty_or : List RawPattern → List RawPattern → List RawPattern
nonempty_or [] other = other
nonempty_or (p ∷ ps) other = p ∷ ps

-- `cache.get(domain) or cache.get("general") or []`
unfoldable pub domain_or_general : PatternCache → Text → List RawPattern
domain_or_general cache domain =
    nonempty_or (cache_get domain cache) (cache_get (codes "general") cache)

-- `if prompt_words`
unfoldable pub narrowed : List RawPattern → Text → Option (List Text) → List RawPattern
narrowed raw domain none = raw
narrowed raw domain (some []) = raw
narrowed raw domain (some (w ∷ ws)) = filter_patterns_by_relevance raw domain (w ∷ ws)

-- `fetch_patterns`: the patterns, and the cache behind them
unfoldable pub fetch_patterns :
    ℕ
    → Option (List RawPattern)
    → PatternsFile
    → PatternCache
    → Text
    → Option (List Text)
    → Result (List RawPattern × PatternCache)
fetch_patterns now (some api) source cache domain prompt_words =
    ok (narrowed api domain prompt_words, cache)
fetch_patterns now none source cache domain prompt_words = refreshed now source cache >>= λ warm.
    ok (narrowed (domain_or_general warm domain) domain prompt_words, warm)

-- the line of a pattern
unfoldable pub pattern_line : RawPattern → Text
pattern_line p =
    codes "- **["
    ++ (sanitize_pattern_text (get_or p.pattern_id (codes "?")) 80
        ++ (codes "]** " ++ sanitize_pattern_text (get_or p.description []) 300))

-- `_patterns_block`
unfoldable pub patterns_block : List RawPattern → Text → List Text
patterns_block [] heading = []
patterns_block (p ∷ ps) heading = heading ∷ map pattern_line (take max_patterns (p ∷ ps))

abbrev pub delegation_threshold : ℕ
delegation_threshold = 2

-- `_delegation_block`
unfoldable pub delegation_block : Text
delegation_block =
    codes "## Delegation Rule\n\nFor any task requiring more than "
    ++ (decimal delegation_threshold
        ++ (codes
              " tool calls, delegate as your **first action** — before any reads, writes, or shell calls:\n\n"
            ++ (codes "- Multiple independent subtasks → use parallel subagents\n"
                ++ (codes
                      "- Single coherent task → `Agent(subagent_type='general-purpose', prompt='...', description='...')`\n\n"
                    ++ codes "Conversational responses are exempt."))))

-- `_HANDOFF_TIP`
unfoldable pub handoff_tip : Text
handoff_tip =
    codes
      "## Handoff Tip *(one-time)*\n\nFor complex tasks, structure your request for better results:\n\n```\n"
    ++ (codes "Task:        [one sentence description]\n"
        ++ (codes "Scope:       [repos/files involved]\n"
            ++ (codes "Workflow:    [which skill to use]\n"
                ++ (codes "Constraints: [what NOT to do]\n"
                    ++ codes "Done when:   [acceptance criteria]\n```"))))

-- A summary of an earlier session, its values as they are printed.
pub record Prior : Type 0 where
  pub session_outcome : Option Text
  pub files_edited : Option Text
  pub languages : List Text
  pub prompts_classified : Option Text
  pub last_prompt_at : Text

unfoldable pub languages_text : List Text → Text
languages_text [] = codes "none"
languages_text (l ∷ ls) = join (codes ", ") (l ∷ ls)

unfoldable pub last_active : Text → List Text
last_active last_at =
    if is_empty last_at
    then []
    else (codes "**Last active:** " ++ (replace_char b'T' 32 (take 19 last_at) ++ codes "  ")) ∷ []

-- `_prior_session_block`
unfoldable pub prior_session_block : Prior → Text
prior_session_block p = join (codes "\n") (
    codes "## Prior Session Context"
    ∷ []
    ∷ (codes "**Outcome:** " ++ (get_or p.session_outcome (codes "unknown") ++ codes "  "))
    ∷ (codes "**Files edited:** " ++ (get_or p.files_edited (codes "0") ++ codes "  "))
    ∷ (codes "**Languages:** " ++ (languages_text p.languages ++ codes "  "))
    ∷ (codes "**Prompts:** " ++ (get_or p.prompts_classified (codes "0") ++ codes "  "))
    ∷ last_active p.last_prompt_at)

-- `_proof_sentinel`, for the sentinel that the proof mode draws
unfoldable pub proof_sentinel : Option Text → Text
proof_sentinel none = []
proof_sentinel (some sentinel) = codes "<!-- OmniCursor: sentinel " ++ (sentinel ++ codes " -->")

-- the header, with the sentinel on a line of its own
unfoldable pub with_sentinel : Text → Text → Text
with_sentinel header sentinel =
    if is_empty sentinel then header else header ++ (codes "\n" ++ sentinel)

abbrev pub shown_count : List RawPattern → Text
shown_count patterns = decimal (length (take max_patterns patterns))

abbrev pub section_if : Bool → Text → List Text
section_if b s = if b then s ∷ [] else []

abbrev pub prior_section : Option Prior → List Text
prior_section none = []
prior_section (some p) = prior_session_block p ∷ []

abbrev pub lines_section : List Text → List Text
lines_section [] = []
lines_section (l ∷ ls) = join (codes "\n") (l ∷ ls) ∷ []

abbrev pub intro : Text
intro =
    codes
      "## OmniCursor Session Context\n\nAgent routing is emitted per prompt for backend learning; the guidance below is session-level and refreshed after tool use."

-- `sections`
unfoldable pub session_sections : List RawPattern → Option Prior → Bool → List Text
session_sections patterns prior_summary include_handoff =
    intro
    ∷ (lines_section (patterns_block patterns (codes "### Learned Patterns (baseline)"))
        ++ (delegation_block
            ∷ (section_if include_handoff handoff_tip ++ prior_section prior_summary)))

-- `build_session_context`
unfoldable pub build_session_context : Option Text → List RawPattern → Option Prior → Bool → Text
build_session_context sentinel patterns prior_summary include_handoff =
    with_sentinel
      (codes "<!-- OmniCursor: sessionStart injection patterns="
        ++ (shown_count patterns ++ codes " -->"))
      (proof_sentinel sentinel)
    ++ (codes "\n\n"
        ++ join (codes "\n\n---\n\n") (session_sections patterns prior_summary include_handoff))

unfoldable pub refresh_header : List RawPattern → Text → Text → Text
refresh_header patterns domain sentinel =
    with_sentinel
      (codes "<!-- OmniCursor: postToolUse refresh domain="
        ++ (domain ++ (codes " patterns=" ++ (shown_count patterns ++ codes " -->"))))
      sentinel

unfoldable pub refresh_with : List RawPattern → Text → Text → List Text → Text
refresh_with patterns domain sentinel [] =
    if is_empty sentinel then [] else refresh_header patterns domain sentinel
refresh_with patterns domain sentinel (l ∷ ls) =
    refresh_header patterns domain sentinel ++ (codes "\n\n" ++ join (codes "\n") (l ∷ ls))

-- `build_refresh_context`
unfoldable pub build_refresh_context : Option Text → List RawPattern → Text → Text
build_refresh_context sentinel patterns domain =
    refresh_with patterns domain (proof_sentinel sentinel) (
      patterns_block patterns (codes "### Learned Patterns (refreshed · " ++ (domain ++ codes ")")))
