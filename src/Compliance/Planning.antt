-- ===== src/Compliance/Planning.antt =====
-- src/omnicursor/compliance.py: a part of COMPLIANCE_REGISTRY.
use omnicursor.Prelude.{List, [], ◌∷◌}
use omnicursor.Text.{codes}
use omnicursor.Compliance.Entry.{Check}

-- "onex-writing-plans"
unfoldable pub writing_plans_checks : List Check
writing_plans_checks =
    record {
      name = codes "has_plan_header";
      keywords =
          codes "goal"
          ∷ codes "architecture"
          ∷ codes "tech stack"
          ∷ codes "implementation plan"
          ∷ [];
    }
    ∷ record {
      name = codes "has_exact_file_paths";
      keywords =
          codes ".py"
          ∷ codes ".ts"
          ∷ codes ".js"
          ∷ codes ".yaml"
          ∷ codes ".yml"
          ∷ codes ".md"
          ∷ codes "src/"
          ∷ codes "tests/"
          ∷ codes "create:"
          ∷ codes "modify:"
          ∷ [];
    }
    ∷ record {
      name = codes "follows_tdd_order";
      keywords =
          codes "failing test"
          ∷ codes "test first"
          ∷ codes "red"
          ∷ codes "green"
          ∷ codes "tdd"
          ∷ codes "write test"
          ∷ codes "run test"
          ∷ codes "confirm fail"
          ∷ codes "confirm pass"
          ∷ [];
    }
    ∷ record {
      name = codes "has_bite_sized_steps";
      keywords =
          codes "step 1"
          ∷ codes "step 2"
          ∷ codes "step 3"
          ∷ codes "phase"
          ∷ codes "commit"
          ∷ codes "git add"
          ∷ codes "git commit"
          ∷ [];
    }
    ∷ record {
      name = codes "includes_adversarial_review";
      keywords =
          codes "adversarial"
          ∷ codes "r1"
          ∷ codes "r2"
          ∷ codes "review"
          ∷ codes "count integrity"
          ∷ codes "acceptance criteria"
          ∷ [];
    }
    ∷ []

-- "onex-plan-ticket"
unfoldable pub plan_ticket_checks : List Check
plan_ticket_checks =
    record {
      name = codes "detects_repo";
      keywords =
          codes "omniclaude"
          ∷ codes "omnibase_core"
          ∷ codes "omnibase_infra"
          ∷ codes "omnidash"
          ∷ codes "omniintelligence"
          ∷ codes "omnimemory"
          ∷ codes "omninode_infra"
          ∷ codes "repo"
          ∷ [];
    }
    ∷ record {
      name = codes "outputs_yaml_template";
      keywords =
          codes "yaml"
          ∷ codes "title:"
          ∷ codes "repo:"
          ∷ codes "requirements:"
          ∷ codes "verification:"
          ∷ codes "template"
          ∷ codes "contract"
          ∷ [];
    }
    ∷ record {
      name = codes "has_requirements_section";
      keywords =
          codes "requirement"
          ∷ codes "r1"
          ∷ codes "statement"
          ∷ codes "rationale"
          ∷ codes "acceptance"
          ∷ [];
    }
    ∷ record {
      name = codes "has_verification_section";
      keywords =
          codes "verification"
          ∷ codes "pytest"
          ∷ codes "lint"
          ∷ codes "ruff"
          ∷ codes "mypy"
          ∷ codes "unit_test"
          ∷ codes "unit test"
          ∷ codes "blocking"
          ∷ [];
    }
    ∷ record {
      name = codes "creates_linear_ticket";
      keywords =
          codes "tracker.create_issue"
          ∷ codes "save_issue"
          ∷ codes "list_teams"
          ∷ codes "linear"
          ∷ codes "ticket"
          ∷ codes "created"
          ∷ codes "url"
          ∷ [];
    }
    ∷ []
