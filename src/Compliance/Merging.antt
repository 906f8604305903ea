-- ===== src/Compliance/Merging.antt =====
-- src/omnicursor/compliance.py: a part of COMPLIANCE_REGISTRY.
use omnicursor.Prelude.{List, [], ◌∷◌}
use omnicursor.Text.{codes}
use omnicursor.Compliance.Entry.{Check}

-- "onex-docs-reality-sync"
unfoldable pub docs_reality_sync_checks : List Check
docs_reality_sync_checks =
    record {
      name = codes "inventories_documentation";
      keywords = codes "inventory" ∷ codes "readme" ∷ codes "docs/" ∷ [];
    }
    ∷ record {
      name = codes "establishes_source_of_truth";
      keywords =
          codes "source of truth"
          ∷ codes "codebase"
          ∷ codes "behavior"
          ∷ codes "authoritative"
          ∷ [];
    }
    ∷ record {
      name = codes "addresses_drift";
      keywords =
          codes "drift"
          ∷ codes "outdated"
          ∷ codes "stale"
          ∷ codes "contradiction"
          ∷ codes "mismatch"
          ∷ [];
    }
    ∷ record {
      name = codes "archives_when_unmaintainable";
      keywords = codes "archive" ∷ codes "archived" ∷ codes "deprecated" ∷ codes "superseded" ∷ [];
    }
    ∷ record {
      name = codes "summarizes_actions";
      keywords = codes "summary" ∷ codes "updated" ∷ codes "table" ∷ codes "follow-up" ∷ [];
    }
    ∷ []

-- "onex-merge-planner"
unfoldable pub merge_planner_checks : List Check
merge_planner_checks =
    record {
      name = codes "classifies_pr_type";
      keywords =
          codes "accelerator"
          ∷ codes "normal"
          ∷ codes "blocked"
          ∷ codes "classify"
          ∷ codes "type"
          ∷ [];
    }
    ∷ record {
      name = codes "scores_priority";
      keywords =
          codes "priority" ∷ codes "score" ∷ codes "dimension" ∷ codes "weight" ∷ codes "rank" ∷ [];
    }
    ∷ record {
      name = codes "determines_merge_order";
      keywords =
          codes "order" ∷ codes "merge" ∷ codes "queue" ∷ codes "sequence" ∷ codes "first" ∷ [];
    }
    ∷ record {
      name = codes "checks_conflicts";
      keywords =
          codes "conflict"
          ∷ codes "rebase"
          ∷ codes "base branch"
          ∷ codes "no conflict"
          ∷ codes "clean merge"
          ∷ codes "merge target"
          ∷ [];
    }
    ∷ []

-- "onex-insights-to-plan"
unfoldable pub insights_to_plan_checks : List Check
insights_to_plan_checks =
    record {
      name = codes "categorizes_insights";
      keywords =
          codes "insight"
          ∷ codes "finding"
          ∷ codes "observation"
          ∷ codes "friction"
          ∷ codes "category"
          ∷ [];
    }
    ∷ record {
      name = codes "assigns_priority_bands";
      keywords =
          codes "p0" ∷ codes "p1" ∷ codes "p2" ∷ codes "p3" ∷ codes "priority" ∷ codes "band" ∷ [];
    }
    ∷ record {
      name = codes "produces_task_blocks";
      keywords =
          codes "task" ∷ codes "action" ∷ codes "what to do" ∷ codes "plan" ∷ codes "step" ∷ [];
    }
    ∷ record {
      name = codes "includes_acceptance_criteria";
      keywords =
          codes "acceptance"
          ∷ codes "criteria"
          ∷ codes "done"
          ∷ codes "outcome"
          ∷ codes "verify"
          ∷ [];
    }
    ∷ []

-- "onex-handoff"
unfoldable pub handoff_checks : List Check
handoff_checks =
    record {
      name = codes "captures_session_context";
      keywords =
          codes "branch" ∷ codes "commit" ∷ codes "file" ∷ codes "session" ∷ codes "context" ∷ [];
    }
    ∷ record {
      name = codes "summarizes_progress";
      keywords =
          codes "summary"
          ∷ codes "accomplished"
          ∷ codes "progress"
          ∷ codes "completed"
          ∷ codes "done"
          ∷ [];
    }
    ∷ record {
      name = codes "documents_remaining_work";
      keywords =
          codes "remaining" ∷ codes "todo" ∷ codes "next" ∷ codes "task" ∷ codes "continue" ∷ [];
    }
    ∷ record {
      name = codes "notes_blockers";
      keywords =
          codes "blocker"
          ∷ codes "warning"
          ∷ codes "failing"
          ∷ codes "blocked"
          ∷ codes "issue"
          ∷ [];
    }
    ∷ []
