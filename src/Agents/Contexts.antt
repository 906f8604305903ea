-- ===== src/Agents/Contexts.antt =====
-- The agents and the aliases that src/omnicursor/agents.py holds itself.
use omnicursor.Prelude.{Option, none, some, List, [], ◌∷◌}
use omnicursor.Text.{Text, codes}

-- `AgentContext` of schemas.py
pub record AgentContext : Type 0 where
  pub agent_name : Text
  pub description : Text
  pub instructions : List Text
  pub recommended_skill : Option Text

abbrev pub default_context : AgentContext
default_context = record {
  agent_name = codes "omnicursor-generalist";
  description = codes "General-purpose fallback agent for unmatched categories.";
  instructions =
      codes "Prefer the preserved Cursor rules before inventing a new workflow."
      ∷ codes
          "Read mirrored skills under .cursor/skills/onex-<slug>/ when needed; use hook routing hints when present."
      ∷ codes "Check 00-omninode-concepts for shared vocabulary."
      ∷ [];
  recommended_skill = none;
}

abbrev debugging_agent : AgentContext
debugging_agent = record {
  agent_name = codes "systematic-debugger";
  description = codes "Structured debugging agent — reproduce, hypothesize, verify.";
  instructions =
      codes "Keep 00-omninode-concepts and 01-codebase-research as the always-on base."
      ∷ codes "Reproduce the issue before editing whenever a repro is available."
      ∷ codes "Load the systematic-debugging skill and follow it step-by-step."
      ∷ codes "Prefer the smallest verified fix over a redesign."
      ∷ [];
  recommended_skill = some (codes "onex-systematic-debugging");
}

abbrev brainstorming_agent : AgentContext
brainstorming_agent = record {
  agent_name = codes "brainstorming-guide";
  description =
      codes
        "Collaborative idea refinement agent — one question at a time, 2-3 approaches, design doc output.";
  instructions =
      codes "Reuse the preserved 10-brainstorming rule as the primary methodology."
      ∷ codes "Keep research bounded with 01-codebase-research."
      ∷ codes "Ask one question per message — never combine two questions."
      ∷ codes "Present 2-3 approaches with named trade-offs before settling."
      ∷ codes "Write design outputs to docs/plans/ using the existing handoff protocol."
      ∷ [];
  recommended_skill = some (codes "onex-brainstorming");
}

abbrev planning_agent : AgentContext
planning_agent = record {
  agent_name = codes "plan-writer";
  description = codes "Implementation plan writer — bite-sized TDD tasks with exact file paths.";
  instructions =
      codes "Reuse the preserved 11-writing-plans rule as the primary methodology."
      ∷ codes "Keep tasks small, explicit, and artifact-path anchored."
      ∷ codes "Each step is one action, 2-5 minutes of work."
      ∷ codes "Use the preserved adversarial review structure (R1-R6) before handing off."
      ∷ codes "Output complete code examples, not placeholders."
      ∷ [];
  recommended_skill = some (codes "onex-writing-plans");
}

abbrev ticketing_agent : AgentContext
ticketing_agent = record {
  agent_name = codes "ticket-planner";
  description =
      codes "Ticket contract generator — deterministic repo detection and YAML template output.";
  instructions =
      codes "Reuse the preserved 12-plan-ticket rule for deterministic repo detection."
      ∷ codes "Follow the 3-priority chain: CWD/prompt, README, ask user."
      ∷ codes "Keep output YAML-only and use the documented handoff to the linear rule."
      ∷ codes "Pre-fill fields from prompt context; mark uncertain fields as FILL IN."
      ∷ [];
  recommended_skill = some (codes "onex-plan-ticket");
}

-- `AGENT_CONTEXTS`
abbrev pub agent_contexts : List (Text × AgentContext)
agent_contexts =
    (codes "debugging", debugging_agent)
    ∷ (codes "brainstorming", brainstorming_agent)
    ∷ (codes "planning", planning_agent)
    ∷ (codes "ticketing", ticketing_agent)
    ∷ []

-- `ALIASES`
abbrev pub aliases : List (Text × Text)
aliases =
    (codes "debug", codes "debugging")
    ∷ (codes "bug", codes "debugging")
    ∷ (codes "systematic-debugging", codes "debugging")
    ∷ (codes "brainstorm", codes "brainstorming")
    ∷ (codes "idea", codes "brainstorming")
    ∷ (codes "design", codes "brainstorming")
    ∷ (codes "writing-plans", codes "planning")
    ∷ (codes "plan", codes "planning")
    ∷ (codes "plans", codes "planning")
    ∷ (codes "plan-ticket", codes "ticketing")
    ∷ (codes "ticket", codes "ticketing")
    ∷ (codes "tickets", codes "ticketing")
    ∷ (codes "debug-intelligence", codes "debug-intelligence")
    ∷ (codes "version-control", codes "version-control")
    ∷ (codes "git", codes "version-control")
    ∷ (codes "commit", codes "version-control")
    ∷ (codes "research", codes "research")
    ∷ (codes "investigate", codes "research")
    ∷ (codes "test", codes "testing")
    ∷ (codes "tests", codes "testing")
    ∷ (codes "testing", codes "testing")
    ∷ (codes "quality", codes "quality")
    ∷ (codes "code-quality", codes "quality")
    ∷ (codes "lint", codes "quality")
    ∷ (codes "review", codes "review")
    ∷ (codes "pr", codes "review")
    ∷ (codes "pull-request", codes "review")
    ∷ (codes "pr-review", codes "review")
    ∷ (codes "session-handoff", codes "handoff")
    ∷ (codes "continuity", codes "handoff")
    ∷ (codes "docs", codes "documentation")
    ∷ (codes "documentation", codes "documentation")
    ∷ (codes "security", codes "security")
    ∷ (codes "audit", codes "security")
    ∷ (codes "vulnerability", codes "security")
    ∷ (codes "performance", codes "performance")
    ∷ (codes "optimize", codes "performance")
    ∷ (codes "benchmark", codes "performance")
    ∷ (codes "database", codes "database")
    ∷ (codes "db", codes "database")
    ∷ (codes "sql", codes "database")
    ∷ (codes "frontend", codes "frontend")
    ∷ (codes "react", codes "frontend")
    ∷ (codes "ui", codes "frontend")
    ∷ (codes "backend", codes "backend")
    ∷ (codes "fastapi", codes "backend")
    ∷ (codes "summarize", codes "summarization")
    ∷ (codes "summarization", codes "summarization")
    ∷ (codes "condense", codes "summarization")
    ∷ (codes "exploration", codes "exploration")
    ∷ (codes "crawl", codes "exploration")
    ∷ (codes "generalist", codes "generalist")
    ∷ []
