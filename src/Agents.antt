-- ===== src/Agents.antt =====
-- src/omnicursor/agents.py: the registry of agents, and the choice of one for a prompt. The files of
-- .cursor/agents are given in the order of their names, each with its stem.
pub mod Contexts
mod Routing
mod Loading
mod Tests
use omnicursor.Prelude.{
  ℕ, Bool, true, false, not, ◌&&◌, Option, none, some, List, [], ◌∷◌, ◌++◌, if◌then◌else◌, get_or,
  keep, map, take, sort_by,
}
use omnicursor.Text.{Text, same, is_empty, lower}
use omnicursor.Text.Order.{sorted}
use omnicursor.Text.Token.{name_token, alias_of}
use omnicursor.Keywords.{member, extract_keywords}
use omnicursor.Json.{
  Error, attribute_error, type_error, unicode_error, value_error, Result, ok, raised, ◌>>=◌,
}
use omnicursor.Selection.{to_set}
use omnicursor.Scoring.{Fraction, reaches, hard_floor, Agent, score_agent}
use omnicursor.Agents.Contexts.{AgentContext, default_context, agent_contexts, aliases}

-- a configuration with its category and triggers
pub record RawAgent : Type 0 where
  pub agent : Agent
  pub name : Option Text
  pub description : Text
  pub instructions : List Text
  pub recommended_skill : Option Text

-- What reading a file of .cursor/agents gives: an OSError, no JSON, no UTF-8, JSON that is no
-- object, an object with a list or an object as its category, which `AgentContext` is tried on and
-- refuses or not, an object with a text or nothing as its category that `AgentContext` refuses, or
-- a configuration.
pub data AgentFile : Type 0 where
  unreadable malformed undecodable no_object : AgentFile
  unhashable : Bool → AgentFile
  invalid : Agent → AgentFile
  holds : RawAgent → AgentFile

abbrev pub Contexts : Type 0
Contexts = List (Text × AgentContext)

-- `d[category] = context`
unfoldable pub set_context : Text → AgentContext → Contexts → Contexts
set_context category context [] = (category, context) ∷ []
set_context category context ((k, v) ∷ d) =
    let rest = set_context category context d in
    if same k category then (k, context) ∷ d else (k, v) ∷ rest

-- `d.get(category)`
unfoldable pub find_context : Text → Contexts → Option AgentContext
find_context category [] = none
find_context category ((k, v) ∷ d) = if same k category then some v else find_context category d

unfoldable pub context_of : Text → RawAgent → AgentContext
context_of stem raw = record {
  agent_name = get_or raw.name stem;
  description = raw.description;
  instructions = raw.instructions;
  recommended_skill = raw.recommended_skill;
}

-- The loop of `_load_json_agents`.
unfoldable pub load_from : Contexts → List (Text × AgentFile) → Result Contexts
load_from result [] = ok result
load_from result ((stem, unreadable) ∷ files) = load_from result files
load_from result ((stem, malformed) ∷ files) = load_from result files
load_from result ((stem, undecodable) ∷ files) = raised unicode_error
load_from result ((stem, no_object) ∷ files) = raised attribute_error
load_from result ((stem, unhashable refused) ∷ files) =
    if refused then raised value_error else load_from result files
load_from result ((stem, invalid agent) ∷ files) =
    if is_empty agent.category then load_from result files else raised value_error
load_from result ((stem, holds raw) ∷ files) =
    load_from
      (if is_empty raw.agent.category
        then result
        else set_context raw.agent.category (context_of stem raw) result)
      files

-- `_load_json_agents`
unfoldable pub load_json_agents : List (Text × AgentFile) → Result Contexts
load_json_agents files = load_from [] files

-- `_RAW_JSON_AGENTS`: what is read of the files, and the error that ends the reading
unfoldable pub read_raw : List (Text × AgentFile) → List AgentFile × Option Error
read_raw [] = ([], none)
read_raw ((stem, unreadable) ∷ files) = read_raw files
read_raw ((stem, malformed) ∷ files) = read_raw files
read_raw ((stem, undecodable) ∷ files) = ([], some unicode_error)
read_raw ((stem, no_object) ∷ files) = let r = read_raw files in (no_object ∷ r.0, r.1)
read_raw ((stem, unhashable refused) ∷ files) =
    let r = read_raw files in (unhashable refused ∷ r.0, r.1)
read_raw ((stem, invalid agent) ∷ files) = let r = read_raw files in (invalid agent ∷ r.0, r.1)
read_raw ((stem, holds raw) ∷ files) = let r = read_raw files in (holds raw ∷ r.0, r.1)

-- The agents whose categories make `_JSON_CATEGORIES`, or the error of `a.get` on one that is no
-- object and of the set on a category that cannot be hashed.
unfoldable pub hashed : List AgentFile → Result (List Agent)
hashed [] = ok []
hashed (no_object ∷ raw) = raised attribute_error
hashed (unhashable refused ∷ raw) = raised type_error
hashed (invalid agent ∷ raw) = hashed raw >>= λ rest. ok (agent ∷ rest)
hashed (holds r ∷ raw) = hashed raw >>= λ rest. ok (r.agent ∷ rest)
hashed (unreadable ∷ raw) = hashed raw
hashed (malformed ∷ raw) = hashed raw
hashed (undecodable ∷ raw) = hashed raw

-- `reverse.get(category, [])`
unfoldable pub reverse_aliases : List (Text × Text) → Text → List Text
reverse_aliases [] category = []
reverse_aliases ((alias, target) ∷ table) category =
    let rest = reverse_aliases table category in if same target category then alias ∷ rest else rest

-- `triggers`
unfoldable pub triggers_of : Text → List Text
triggers_of category = sorted (to_set (category ∷ reverse_aliases aliases category))

unfoldable pub hardcoded_agent : Text × AgentContext → Agent
hardcoded_agent (category, context) = record {
  category = category;
  explicit_triggers = triggers_of category;
  context_triggers = [];
  activation_keywords = triggers_of category;
}

-- `_build_hardcoded_raw_agents`
unfoldable pub hardcoded_raw_agents : List Agent
hardcoded_raw_agents = map hardcoded_agent agent_contexts

abbrev pub category_of : Agent → Text
category_of agent = agent.category

-- `_ALL_RAW_AGENTS`
unfoldable pub all_raw_agents : List Agent → List Agent
all_raw_agents json =
    json
    ++ keep (λ (a : Agent). not (member a.category (map category_of json))) hardcoded_raw_agents

-- `{**d, **e}`
unfoldable pub merge_contexts : Contexts → Contexts → Contexts
merge_contexts d [] = d
merge_contexts d ((k, v) ∷ e) = merge_contexts (set_context k v d) e

-- `_MERGED_CONTEXTS` and `_ALL_RAW_AGENTS`
pub record Registry : Type 0 where
  pub merged : Contexts
  pub pool : List Agent

-- The module's variables: `_JSON_AGENTS`, `_RAW_JSON_AGENTS`, and what is built of them.
pub record Globals : Type 0 where
  pub json_agents : Contexts
  pub raw_json_agents : List AgentFile
  pub registry : Registry

-- `_JSON_CATEGORIES`, `_ALL_RAW_AGENTS` and `_MERGED_CONTEXTS`, in this order
unfoldable pub rebuild : Globals → Result (List Agent) → Globals × Option Error
rebuild globals (raised e) = (globals, some e)
rebuild globals (ok agents) = (
  record globals {
    registry = record {
      merged = merge_contexts agent_contexts globals.json_agents;
      pool = all_raw_agents agents;
    };
  },
  none,
)

-- what follows the reading of the raw agents, with the error that has ended it
unfoldable pub after_raw : Globals → Option Error → Globals × Option Error
after_raw globals (some e) = (globals, some e)
after_raw globals none = rebuild globals (hashed globals.raw_json_agents)

unfoldable pub after_load :
    Globals → List (Text × AgentFile) → Result Contexts → Globals × Option Error
after_load globals files (raised e) = (globals, some e)
after_load globals files (ok json) =
    let raw = read_raw files in
    after_raw (record globals { json_agents = json; raw_json_agents = raw.0 }) raw.1

-- `reload_agents`: the variables that have been assigned before a raise stay so
unfoldable pub reload_agents : Globals → List (Text × AgentFile) → Globals × Option Error
reload_agents globals files = after_load globals files (load_json_agents files)

-- `normalize_category`
unfoldable pub normalize_category : Text → Text
normalize_category category = alias_of aliases (name_token category)

-- `get_agent_context`
unfoldable pub get_agent_context : Registry → Text → AgentContext
get_agent_context registry category =
    get_or (find_context (normalize_category category) registry.merged) default_context

-- `(category, score, reason)`
pub record Candidate : Type 0 where
  pub category : Text
  pub score : Fraction
  pub reason : Text

unfoldable pub not_below : Candidate → Candidate → Bool
not_below c d = reaches c.score d.score

-- `sorted({ctx.agent_name for ctx in _MERGED_CONTEXTS.values()})`
abbrev pub name_of : Text × AgentContext → Text
name_of (category, context) = context.agent_name

-- `list_agents`
unfoldable pub list_agents : Registry → List Text
list_agents registry = sorted (to_set (map name_of registry.merged))

module _ (ratio : Text → Text → Fraction) (percent : Fraction → Text) where
  abbrev pub candidate_of : Text → List Text → Agent → Candidate
  candidate_of prompt_lower prompt_words agent =
      let best = score_agent ratio percent prompt_lower prompt_words agent in
      record { category = agent.category; score = best.score; reason = best.reason }

  -- `if not category: continue` and `if score >= HARD_FLOOR`
  abbrev pub qualifies : Candidate → Bool
  qualifies c = not (is_empty c.category) && reaches c.score hard_floor

  -- `match_agent_candidates`
  unfoldable pub match_agent_candidates : Registry → Text → ℕ → List Candidate
  match_agent_candidates registry prompt max_results =
      if is_empty prompt
      then []
      else take max_results (
          sort_by not_below (
            keep qualifies
              (map (candidate_of (lower prompt) (to_set (extract_keywords prompt))) registry.pool)))

  abbrev pub context_for : Registry → List Candidate → AgentContext
  context_for registry [] = default_context
  context_for registry (c ∷ cs) = get_or (find_context c.category registry.merged) default_context

  -- `match_agent`
  unfoldable pub match_agent : Registry → Text → AgentContext
  match_agent registry prompt = context_for registry (match_agent_candidates registry prompt 5)
