-- ===== src/SmallHooks/Tests.antt =====
-- Runs of the small hooks, and the theorems about them at inputs.
use omnicursor.Prelude.{◌≡◌, refl, ◌∙◌, true, false, none, some, List, [], ◌∷◌, ◌++◌, All}
use omnicursor.Text.{
  Text, codes, same, same_comm, is_space, is_word, to_lower, to_upper, is_empty, lower, strip,
  lstrip, rstrip,
}
use omnicursor.Text.Split.{split}
use omnicursor.Json.{Fields, end, field, obj, str, bool, get, unreadable, ok}
use omnicursor.Learned.Session.{absent}
use omnicursor.Hooks.{Store}
use omnicursor.Hooks.SessionFile.{Merged}
use omnicursor.Context.{look_up}
use omnicursor.Context.Cache.{new_cache}
use omnicursor.SmallHooks.{HookStep, answered, session_end_main}
use omnicursor.SmallHooks.Edits.{
  EditInput, EditResult, handle_edit, language_of, detect_language, run_ruff_check, run_tsc_check,
}
use omnicursor.SmallHooks.Starting.{StartWorld, started_fields, init_session}
use omnicursor.SmallHooks.Answers.{
  Quiet, SameBut, lines, session_end_main-Quiet, session_end_main-blind, init_session-Merged,
}
use omnicursor.Regex.{runs, last_or}
use omnicursor.Redaction.Patterns.{secret_patterns}
use omnicursor.Redaction.{
  sub_from, sub, sub_all, first_cut, first_before, first_dropped, first_after, redact_secrets,
}

run_edit : EditInput → EditResult
unfolding handle_edit language_of detect_language look_up run_ruff_check run_tsc_check same is_empty
    lower strip lstrip rstrip split
run_edit event =
    handle_edit (λ path. codes ".py") (λ path. some (codes "E1\n\nE2\n")) (λ path. none) event

-- the blank line is no finding
two_findings :
    run_edit (record { conversation_id = []; file_path = codes "a.py"; edits = some 3 }) ≡ record {
      conversation_id = [];
      file_path = codes "a.py";
      edit_count = 3;
      language = codes "python";
      ruff_findings = 2;
      tsc_findings = 0;
    }
unfolding run_edit
two_findings = refl

abbrev failing : Fields
failing = field (codes "error_message") (str (codes "token=abcdefgh1")) end

abbrev failing_too : Fields
failing_too = field (codes "error_message") (str (codes "token=abcdefgh2")) end

failing-SameBut : SameBut failing failing_too
unfolding SameBut get
failing-SameBut key e = rw (same_comm (codes "error_message") key ∙ e) refl

session_end_main-Quiet_example :
    ((steps : List HookStep) × (session_end_main true (obj failing) unreadable 3
        ≡ steps ++ (answered end ∷ []))
      × All (Quiet failing) steps)
    × (lines (session_end_main true (obj failing) unreadable 3)
        ≡ lines (session_end_main true (obj failing_too) unreadable 3))
session_end_main-Quiet_example =
    session_end_main-Quiet failing failing_too unreadable 3 failing-SameBut

run_redact : Text → Text
unfolding redact_secrets sub_all secret_patterns sub sub_from first_cut first_before first_dropped
    first_after runs last_or is_space is_word to_lower to_upper
run_redact s = redact_secrets s

one_text : run_redact (codes "token=abcdefgh1") ≡ run_redact (codes "token=abcdefgh2")
unfolding run_redact
one_text = refl

session_end_main-blind_example :
    session_end_main true (obj failing) unreadable 3
    ≡ session_end_main true (obj failing_too) unreadable 3
session_end_main-blind_example =
    session_end_main-blind failing failing_too (codes "token=abcdefgh1") (codes "token=abcdefgh2")
      unreadable 3 failing-SameBut (unfold get same in refl) (unfold get same in refl)
      (unfold is_empty in refl) (unfold run_redact in one_text)

abbrev started : StartWorld
started = record {
  now = codes "t";
  current_writable = true;
  writable = true;
  store = λ id. unreadable;
  daemon_answers = false;
  clock = 0;
  api = none;
  source = absent;
  cache = new_cache;
  prior = none;
  sentinel = none;
  hook_ms = 0;
}

init_session-Merged_example :
    (after : Store) × (init_session started (codes "c") ≡ ok after)
    × (m : Merged (λ id. unreadable) after (codes "c") (started_fields (codes "c") (codes "t")))
    × (get (codes "ci_passing") m.new ≡ some (bool false))
init_session-Merged_example =
    init_session-Merged started (codes "c") (unfold is_empty in refl) refl refl (λ e. cc (e))
