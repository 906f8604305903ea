-- ===== src/Compliance/Reviewing.antt =====
-- src/omnicursor/compliance.py: a part of COMPLIANCE_REGISTRY.
use omnicursor.Prelude.{List, [], ◌∷◌}
use omnicursor.Text.{codes}
use omnicursor.Compliance.Entry.{Check}

-- "onex-pr-review"
unfoldable pub pr_review_checks : List Check
pr_review_checks =
    record {
      name = codes "classifies_by_severity";
      keywords =
          codes "critical"
          ∷ codes "major"
          ∷ codes "minor"
          ∷ codes "nit"
          ∷ codes "severity"
          ∷ codes "priority"
          ∷ [];
    }
    ∷ record {
      name = codes "assesses_merge_readiness";
      keywords =
          codes "merge"
          ∷ codes "ready"
          ∷ codes "not ready"
          ∷ codes "blocking"
          ∷ codes "verdict"
          ∷ [];
    }
    ∷ record {
      name = codes "reviews_changed_files";
      keywords =
          codes "diff"
          ∷ codes "changed file"
          ∷ codes "modified file"
          ∷ codes "file review"
          ∷ codes "reviewed file"
          ∷ codes "files changed"
          ∷ [];
    }
    ∷ record {
      name = codes "provides_actionable_findings";
      keywords =
          codes "fix"
          ∷ codes "suggest"
          ∷ codes "should"
          ∷ codes "must"
          ∷ codes "change"
          ∷ codes "update"
          ∷ [];
    }
    ∷ []

-- "onex-pr-polish"
unfoldable pub pr_polish_checks : List Check
pr_polish_checks =
    record {
      name = codes "resolves_conflicts";
      keywords =
          codes "conflict"
          ∷ codes "merge"
          ∷ codes "resolve"
          ∷ codes "unmerged"
          ∷ codes "rebase"
          ∷ [];
    }
    ∷ record {
      name = codes "addresses_review_comments";
      keywords =
          codes "review" ∷ codes "comment" ∷ codes "thread" ∷ codes "feedback" ∷ codes "reply" ∷ [];
    }
    ∷ record {
      name = codes "iterates_to_convergence";
      keywords =
          codes "iteration"
          ∷ codes "consecutive clean"
          ∷ codes "converge"
          ∷ codes "clean pass"
          ∷ codes "pass 1"
          ∷ codes "pass 2"
          ∷ codes "round 1"
          ∷ codes "round 2"
          ∷ [];
    }
    ∷ record {
      name = codes "reports_phase_status";
      keywords =
          codes "phase" ∷ codes "status" ∷ codes "ready" ∷ codes "push" ∷ codes "summary" ∷ [];
    }
    ∷ []

-- "onex-hostile-reviewer"
unfoldable pub hostile_reviewer_checks : List Check
hostile_reviewer_checks =
    record {
      name = codes "uses_adversarial_stance";
      keywords =
          codes "adversarial"
          ∷ codes "skeptical"
          ∷ codes "assume"
          ∷ codes "hidden"
          ∷ codes "defect"
          ∷ [];
    }
    ∷ record {
      name = codes "classifies_findings";
      keywords =
          codes "critical" ∷ codes "major" ∷ codes "minor" ∷ codes "nit" ∷ codes "severity" ∷ [];
    }
    ∷ record {
      name = codes "provides_evidence";
      keywords =
          codes "file"
          ∷ codes "evidence"
          ∷ codes "impact"
          ∷ codes "fix"
          ∷ codes "what to change"
          ∷ [];
    }
    ∷ record {
      name = codes "iterates_to_convergence";
      keywords =
          codes "convergence"
          ∷ codes "consecutive clean"
          ∷ codes "clean pass"
          ∷ codes "iterate"
          ∷ codes "pass 1"
          ∷ codes "pass 2"
          ∷ codes "round 1"
          ∷ [];
    }
    ∷ record {
      name = codes "states_verdict";
      keywords =
          codes "verdict"
          ∷ codes "clean verdict"
          ∷ codes "risks_noted"
          ∷ codes "blocking_issue"
          ∷ codes "overall verdict"
          ∷ codes "stable"
          ∷ [];
    }
    ∷ []

-- "onex-defense-in-depth"
unfoldable pub defense_in_depth_checks : List Check
defense_in_depth_checks =
    record {
      name = codes "traces_data_flow";
      keywords =
          codes "data flow" ∷ codes "trace" ∷ codes "origin" ∷ codes "entry" ∷ codes "failure" ∷ [];
    }
    ∷ record {
      name = codes "validates_at_entry";
      keywords =
          codes "entry" ∷ codes "boundary" ∷ codes "api" ∷ codes "reject" ∷ codes "invalid" ∷ [];
    }
    ∷ record {
      name = codes "validates_at_business_logic";
      keywords =
          codes "business logic" ∷ codes "semantic" ∷ codes "context" ∷ codes "operation" ∷ [];
    }
    ∷ record {
      name = codes "adds_environment_guards";
      keywords =
          codes "environment guard"
          ∷ codes "env guard"
          ∷ codes "env check"
          ∷ codes "temp dir"
          ∷ codes "production guard"
          ∷ codes "ci guard"
          ∷ [];
    }
    ∷ record {
      name = codes "tests_each_layer";
      keywords =
          codes "test each layer"
          ∷ codes "layer test"
          ∷ codes "bypass each"
          ∷ codes "independently verify"
          ∷ codes "unit test each"
          ∷ codes "layer independently"
          ∷ [];
    }
    ∷ []
