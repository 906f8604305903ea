-- ===== src/Agents/Tests.antt =====
-- Runs of agents.py, and the theorems about it at inputs.
use omnicursor.Prelude.{◌≡◌, refl, true, false, Option, some, List, [], ◌∷◌, inl, arith}
use omnicursor.Text.{
  Text, codes, same, is_empty, lower, contains, starts_with, strip, lstrip, rstrip, replace_char,
}
use omnicursor.Text.Token.{name_token, alias_of}
use omnicursor.Json.{Error, type_error}
use omnicursor.Scoring.{Fraction, Agent, reaches, exact_score}
use omnicursor.Scoring.Bounds.{Proper}
use omnicursor.Scoring.Triggers.{Stands}
use omnicursor.Agents.{
  AgentFile, malformed, unhashable, Registry, Globals, normalize_category, reload_agents, rebuild,
  after_raw, after_load, load_json_agents, load_from, read_raw, hashed, match_agent_candidates,
}
use omnicursor.Agents.Routing.{Ranked, match_agent_candidates-Ranked, Winner, match_agent-exact}
use omnicursor.Agents.Loading.{Reload, reload_agents-Reload}

run_category : Text → Text
unfolding normalize_category name_token alias_of same strip lstrip rstrip is_empty lower
    replace_char
run_category s = normalize_category s

spelled : run_category (codes " Plan_Ticket") ≡ codes "ticketing"
unfolding run_category
spelled = refl

abbrev half : Text → Text → Fraction
half s t = record { num = 1; den = 2 }

abbrev half-Proper : (s t : Text) → Proper (half s t)
half-Proper s t = record { positive = omega arith; at_most_one = omega arith }

abbrev debugger : Agent
debugger = record {
  category = codes "debugging";
  explicit_triggers = codes "debug" ∷ [];
  context_triggers = [];
  activation_keywords = [];
}

abbrev registry : Registry
registry = record { merged = []; pool = debugger ∷ [] }

match_agent_candidates-Ranked_example :
    Ranked half
      (λ r. [])
      registry
      (codes "debug")
      5
      (match_agent_candidates half (λ r. []) registry (codes "debug") 5)
match_agent_candidates-Ranked_example =
    match_agent_candidates-Ranked half (λ r. []) half-Proper registry (codes "debug") 5

match_agent-exact_example :
    (w : Winner half (λ r. []) half-Proper registry (codes "Debug it") debugger) × (reaches
        w.best.score exact_score
      ≡ true)
match_agent-exact_example =
    match_agent-exact half (λ r. []) half-Proper registry (codes "Debug it") debugger
      (unfold is_empty in refl) (inl refl) (unfold is_empty in refl)
      (unfold Stands lower contains starts_with in (codes "debug", inl refl, refl))

abbrev globals : Globals
globals = record { json_agents = []; raw_json_agents = []; registry = registry }

-- a category that is a list, behind a file that cannot be parsed
abbrev listed : List (Text × AgentFile)
listed = (codes "a", malformed) ∷ (codes "b", unhashable false) ∷ []

run_reload : List (Text × AgentFile) → Globals × Option Error
unfolding reload_agents after_load after_raw rebuild load_json_agents load_from read_raw hashed
run_reload files = reload_agents globals files

half_way : (run_reload listed).1 ≡ some type_error
unfolding run_reload
half_way = refl

reload_agents-Reload_example : Reload globals listed (reload_agents globals listed)
reload_agents-Reload_example = reload_agents-Reload globals listed
