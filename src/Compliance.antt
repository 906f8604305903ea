-- ===== src/Compliance.antt =====
-- src/omnicursor/compliance.py: the vocabulary check of a response against a skill.
pub mod Entry
pub mod Thinking
pub mod Planning
pub mod Reviewing
pub mod Merging
pub mod Workflows
pub mod Verdict
mod Tests
use omnicursor.Prelude.{
  ℕ, Bool, true, false, not, ◌||◌, Option, none, some, List, [], ◌∷◌, ◌++◌, any, if◌then◌else◌,
}
use omnicursor.Text.{Text, codes, same, is_empty, lower, contains}
use omnicursor.Skills.{canonical_skill_id}
use omnicursor.Compliance.Entry.{Check}
use omnicursor.Compliance.Thinking.{systematic_debugging_checks, brainstorming_checks}
use omnicursor.Compliance.Planning.{writing_plans_checks, plan_ticket_checks}
use omnicursor.Compliance.Reviewing.{
  pr_review_checks, pr_polish_checks, hostile_reviewer_checks, defense_in_depth_checks,
}
use omnicursor.Compliance.Merging.{
  docs_reality_sync_checks, merge_planner_checks, insights_to_plan_checks, handoff_checks,
}
use omnicursor.Compliance.Workflows.{
  using_git_worktrees_checks, recap_checks, plan_review_checks, plan_to_tickets_checks,
  execute_plan_checks,
}

unfoldable pub compliance_registry : List (Text × List Check)
compliance_registry =
    (codes "onex-systematic-debugging", systematic_debugging_checks)
    ∷ (codes "onex-brainstorming", brainstorming_checks)
    ∷ (codes "onex-writing-plans", writing_plans_checks)
    ∷ (codes "onex-plan-ticket", plan_ticket_checks)
    ∷ (codes "onex-pr-review", pr_review_checks)
    ∷ (codes "onex-pr-polish", pr_polish_checks)
    ∷ (codes "onex-hostile-reviewer", hostile_reviewer_checks)
    ∷ (codes "onex-defense-in-depth", defense_in_depth_checks)
    ∷ (codes "onex-docs-reality-sync", docs_reality_sync_checks)
    ∷ (codes "onex-merge-planner", merge_planner_checks)
    ∷ (codes "onex-insights-to-plan", insights_to_plan_checks)
    ∷ (codes "onex-handoff", handoff_checks)
    ∷ (codes "onex-using-git-worktrees", using_git_worktrees_checks)
    ∷ (codes "onex-recap", recap_checks)
    ∷ (codes "onex-plan-review", plan_review_checks)
    ∷ (codes "onex-plan-to-tickets", plan_to_tickets_checks)
    ∷ (codes "onex-execute-plan", execute_plan_checks)
    ∷ []

pub record ComplianceResult : Type 0 where
  pub skill_name : Text
  pub checks : List (Text × Bool)
  pub compliant : Bool
  pub missing : List Text

-- `COMPLIANCE_REGISTRY.get(key)`
unfoldable pub registry_get : Text → List (Text × List Check) → Option (List Check)
registry_get key [] = none
registry_get key ((k, checks) ∷ rest) = if same k key then some checks else registry_get key rest

-- `any(kw.lower() in summary_lower for kw in keywords)`
unfoldable pub passes : Text → Check → Bool
passes summary c = any (λ kw. contains summary (lower kw)) c.keywords

-- `checks[check_name] = passed`
unfoldable pub set_check : Text → Bool → List (Text × Bool) → List (Text × Bool)
set_check name passed [] = (name, passed) ∷ []
set_check name passed ((n, b) ∷ rest) =
    if same n name then (n, passed) ∷ rest else (n, b) ∷ set_check name passed rest

-- the loop over the checks of a skill
unfoldable pub run_checks : Text → List Check → List (Text × Bool) → List (Text × Bool)
run_checks summary [] done = done
run_checks summary (c ∷ cs) done = run_checks summary cs (set_check c.name (passes summary c) done)

-- the names that the loop appends to `missing`
unfoldable pub missing_checks : Text → List Check → List Text
missing_checks summary [] = []
missing_checks summary (c ∷ cs) =
    let rest = missing_checks summary cs in if passes summary c then rest else c.name ∷ rest

unfoldable pub no_entry : Text → ComplianceResult
no_entry key = record {
  skill_name = key;
  checks = [];
  compliant = false;
  missing = (codes "no_registry_entry_for_" ++ key) ∷ [];
}

abbrev pub none_missing : List Text → Bool
none_missing [] = true
none_missing (m ∷ ms) = false

unfoldable pub assess : Text → Text → List Check → ComplianceResult
assess key summary checks = record {
  skill_name = key;
  checks = run_checks summary checks [];
  compliant = none_missing (missing_checks summary checks);
  missing = missing_checks summary checks;
}

unfoldable pub assess_entry : Text → Text → Option (List Check) → ComplianceResult
assess_entry key summary none = no_entry key
assess_entry key summary (some checks) = assess key (lower summary) checks

-- `check_compliance`
unfoldable pub check_compliance : Text → Text → ComplianceResult
check_compliance skill_name response_summary =
    let key = canonical_skill_id skill_name in
    assess_entry key response_summary (registry_get key compliance_registry)
