-- ===== src/Compliance/Thinking.antt =====
-- src/omnicursor/compliance.py: a part of COMPLIANCE_REGISTRY.
use omnicursor.Prelude.{List, [], ◌∷◌}
use omnicursor.Text.{codes}
use omnicursor.Compliance.Entry.{Check}

-- "onex-systematic-debugging"
unfoldable pub systematic_debugging_checks : List Check
systematic_debugging_checks =
    record {
      name = codes "states_problem_clearly";
      keywords =
          codes "symptom"
          ∷ codes "error"
          ∷ codes "failure"
          ∷ codes "bug"
          ∷ codes "issue"
          ∷ codes "problem"
          ∷ codes "traceback"
          ∷ codes "exception"
          ∷ codes "regression"
          ∷ [];
    }
    ∷ record {
      name = codes "provides_hypothesis";
      keywords =
          codes "hypothesis"
          ∷ codes "hypotheses"
          ∷ codes "cause"
          ∷ codes "theory"
          ∷ codes "suspect"
          ∷ codes "likely"
          ∷ codes "root cause"
          ∷ codes "because"
          ∷ [];
    }
    ∷ record {
      name = codes "suggests_minimal_fix";
      keywords =
          codes "fix"
          ∷ codes "patch"
          ∷ codes "change"
          ∷ codes "update"
          ∷ codes "modify"
          ∷ codes "resolve"
          ∷ codes "smallest"
          ∷ codes "minimal"
          ∷ [];
    }
    ∷ record {
      name = codes "includes_verification_step";
      keywords =
          codes "verify"
          ∷ codes "verification"
          ∷ codes "test"
          ∷ codes "confirm"
          ∷ codes "run"
          ∷ codes "check"
          ∷ codes "assert"
          ∷ codes "validate"
          ∷ codes "reproduce"
          ∷ [];
    }
    ∷ []

-- "onex-brainstorming"
unfoldable pub brainstorming_checks : List Check
brainstorming_checks =
    record {
      name = codes "asks_clarifying_questions";
      keywords =
          codes "question"
          ∷ codes "?"
          ∷ codes "which"
          ∷ codes "what"
          ∷ codes "how"
          ∷ codes "where"
          ∷ codes "why"
          ∷ codes "option"
          ∷ codes "choice"
          ∷ codes "prefer"
          ∷ [];
    }
    ∷ record {
      name = codes "presents_multiple_approaches";
      keywords =
          codes "option a"
          ∷ codes "option b"
          ∷ codes "approach"
          ∷ codes "alternative"
          ∷ codes "trade-off"
          ∷ codes "tradeoff"
          ∷ codes "trade off"
          ∷ codes "pros"
          ∷ codes "cons"
          ∷ codes "vs"
          ∷ codes "versus"
          ∷ [];
    }
    ∷ record {
      name = codes "provides_recommendation";
      keywords =
          codes "recommend"
          ∷ codes "recommendation"
          ∷ codes "suggest"
          ∷ codes "preferred"
          ∷ codes "best"
          ∷ codes "chosen"
          ∷ codes "selected"
          ∷ [];
    }
    ∷ record {
      name = codes "includes_design_sections";
      keywords =
          codes "architecture"
          ∷ codes "component"
          ∷ codes "data flow"
          ∷ codes "error handling"
          ∷ codes "testing"
          ∷ codes "design"
          ∷ codes "structure"
          ∷ [];
    }
    ∷ record {
      name = codes "references_output_path";
      keywords = codes "docs/plans/" ∷ codes "design.md" ∷ codes "handoff" ∷ codes "next step" ∷ [];
    }
    ∷ []
