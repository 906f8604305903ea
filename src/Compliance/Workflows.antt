-- ===== src/Compliance/Workflows.antt =====
-- src/omnicursor/compliance.py: a part of COMPLIANCE_REGISTRY.
use omnicursor.Prelude.{List, [], ◌∷◌}
use omnicursor.Text.{codes}
use omnicursor.Compliance.Entry.{Check}

-- "onex-using-git-worktrees"
unfoldable pub using_git_worktrees_checks : List Check
using_git_worktrees_checks =
    record {
      name = codes "selects_directory";
      keywords =
          codes "directory"
          ∷ codes "worktrees"
          ∷ codes "location"
          ∷ codes "path"
          ∷ codes "config"
          ∷ [];
    }
    ∷ record {
      name = codes "verifies_gitignore";
      keywords =
          codes "gitignore"
          ∷ codes "ignore"
          ∷ codes "tracked"
          ∷ codes "exclude"
          ∷ codes "verify"
          ∷ [];
    }
    ∷ record {
      name = codes "creates_worktree";
      keywords =
          codes "worktree" ∷ codes "branch" ∷ codes "create" ∷ codes "add" ∷ codes "isolat" ∷ [];
    }
    ∷ record {
      name = codes "runs_baseline_tests";
      keywords =
          codes "baseline test"
          ∷ codes "tests pass"
          ∷ codes "passing baseline"
          ∷ codes "clean worktree"
          ∷ codes "worktree ready"
          ∷ codes "baseline passing"
          ∷ [];
    }
    ∷ []

-- "onex-recap"
unfoldable pub recap_checks : List Check
recap_checks =
    record {
      name = codes "states_outcome";
      keywords =
          codes "outcome"
          ∷ codes "success"
          ∷ codes "failed"
          ∷ codes "abandoned"
          ∷ codes "unknown"
          ∷ [];
    }
    ∷ record {
      name = codes "lists_files_edited";
      keywords = codes "files edited" ∷ codes "file edited" ∷ [];
    }
    ∷ record {
      name = codes "suggests_next_steps";
      keywords = codes "next step" ∷ codes "suggested" ∷ codes "suggest" ∷ [];
    }
    ∷ []

-- "onex-plan-review"
unfoldable pub plan_review_checks : List Check
plan_review_checks =
    record {
      name = codes "checks_count_integrity";
      keywords =
          codes "count" ∷ codes "task" ∷ codes "numeric" ∷ codes "found" ∷ codes "prose" ∷ [];
    }
    ∷ record {
      name = codes "checks_acceptance_criteria";
      keywords = codes "acceptance" ∷ codes "criteria" ∷ codes "testable" ∷ codes "vague" ∷ [];
    }
    ∷ record {
      name = codes "states_verdict";
      keywords =
          codes "verdict" ∷ codes "pass" ∷ codes "fail" ∷ codes "critical" ∷ codes "major" ∷ [];
    }
    ∷ []

-- "onex-plan-to-tickets"
unfoldable pub plan_to_tickets_checks : List Check
plan_to_tickets_checks =
    record {
      name = codes "parses_task_sections";
      keywords =
          codes "task" ∷ codes "## task" ∷ codes "heading" ∷ codes "section" ∷ codes "found" ∷ [];
    }
    ∷ record { name = codes "creates_epic"; keywords = codes "epic" ∷ codes "parent epic" ∷ [] }
    ∷ record {
      name = codes "returns_ticket_ids";
      keywords = codes "ticket" ∷ codes "linear" ∷ codes "created" ∷ codes "OMN-" ∷ codes "id" ∷ [];
    }
    ∷ []

-- "onex-execute-plan"
unfoldable pub execute_plan_checks : List Check
execute_plan_checks =
    record {
      name = codes "calls_plan_review";
      keywords =
          codes "plan-review" ∷ codes "review" ∷ codes "r1" ∷ codes "r2" ∷ codes "verdict" ∷ [];
    }
    ∷ record {
      name = codes "calls_plan_to_tickets";
      keywords =
          codes "plan-to-tickets"
          ∷ codes "ticket"
          ∷ codes "linear"
          ∷ codes "epic"
          ∷ codes "OMN-"
          ∷ [];
    }
    ∷ record {
      name = codes "reports_summary";
      keywords = codes "passed" ∷ codes "blocked" ∷ codes "skipped" ∷ codes "summary" ∷ [];
    }
    ∷ []
