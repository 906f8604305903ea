-- ===== src/Stop/Tests.antt =====
-- Runs of stop.py, and the theorems about it at inputs.
use omnicursor.Prelude.{ℕ, ◌+◌, ◌≤◌, ◌≡◌, refl, ◌↔◌, Option, none, some, List, [], ◌∷◌, Has}
use omnicursor.Text.{Text, codes, same, is_empty, join, decimal}
use omnicursor.Keywords.{member}
use omnicursor.Json.{str, Result, ok}
use omnicursor.Event.{Event, blank_event, is_event, is_text}
use omnicursor.SessionOutcome.{success, outcome_text}
use omnicursor.Stop.{
  LogLine, blank, malformed, entry, load_events, Tally, empty_tally, set_add, add_language,
  count_edit, count_decision, count_event, count_all, Summary, summarize, format_recap, shell_line,
}
use omnicursor.Stop.Payload.{
  Gathered, gather, gather_event, gather_ids, nothing_gathered, build_outbox_payload,
}
use omnicursor.Stop.Counts.{of_kind, summarize_counts}
use omnicursor.Stop.Ids.{Distinct, NamedBy, injected_pattern_ids_iff}

abbrev prompted : Event
prompted = record blank_event {
  event = some (codes "prompt_classified");
  conversation_id = some (codes "c1");
  injected_pattern_ids = some (codes "p2" ∷ codes "" ∷ codes "p1" ∷ codes "p2" ∷ []);
}

abbrev edited : Event
edited = record blank_event {
  event = some (codes "file_edited");
  file_path = some (codes "a.py");
  language = some (codes "python");
}

abbrev guarded : Event
guarded = record blank_event { event = some (codes "shell_guard"); decision = some (codes "deny") }

run_count : List Event → Tally
unfolding count_all count_event count_edit count_decision add_language set_add member same is_empty
run_count events = count_all events empty_tally

counted : run_count (prompted ∷ edited ∷ edited ∷ guarded ∷ []) ≡ record {
  prompts_classified = 1;
  edited_files = codes "a.py" ∷ [];
  languages = codes "python" ∷ [];
  allowed = 0;
  denied = 1;
  warned = 0;
}
unfolding run_count
counted = refl

run_gather : List Event → Gathered
unfolding gather gather_event gather_ids set_add member same is_empty is_event is_text
run_gather events = gather events nothing_gathered

gathered : (run_gather (prompted ∷ prompted ∷ [])).seen_ids ≡ codes "p2" ∷ codes "p1" ∷ []
unfolding run_gather
gathered = refl

run_load : List LogLine → Result (List Event)
unfolding load_events is_text same
run_load log = load_events (codes "c1") log

loaded : run_load (blank ∷ entry edited ∷ malformed ∷ entry prompted ∷ []) ≡ ok (prompted ∷ [])
unfolding run_load
loaded = refl

abbrev recapped : Summary
recapped = record {
  conversation_id = codes "c1";
  session_status = codes "completed";
  session_outcome = success;
  session_outcome_reason = [];
  prompts_classified = 1;
  files_edited = 12;
  allowed = 3;
  denied = 0;
  warned = 1;
  languages = [];
}

run_recap : Summary → Text
unfolding format_recap shell_line join decimal outcome_text
run_recap s = format_recap s

recap_text :
    run_recap recapped
    ≡ codes
        "## Session Recap (auto)\n**Outcome:** success\n**Files edited:** 12\n**Prompts classified:** 1\n**Shell commands:** 3 allowed, 1 warned, 0 denied\n**Languages:** none"
unfolding run_recap
recap_text = refl

abbrev no_time : Text → Option ℕ
no_time s = none

abbrev no_seconds : ℕ → Text
no_seconds n = []

summarize_counts_example :
    let s =
      summarize no_time no_seconds (codes "c1") (codes "done") (prompted ∷ edited ∷ guarded ∷ []) in
    (s.prompts_classified ≡ of_kind (codes "prompt_classified") (prompted ∷ edited ∷ guarded ∷ []))
    × (s.allowed + (s.denied + s.warned)
        ≡ of_kind (codes "shell_guard") (prompted ∷ edited ∷ guarded ∷ []))
    × (s.files_edited ≤ of_kind (codes "file_edited") (prompted ∷ edited ∷ guarded ∷ []))
summarize_counts_example =
    summarize_counts no_time no_seconds (codes "c1") (codes "done")
      (prompted ∷ edited ∷ guarded ∷ [])

injected_pattern_ids_iff_example :
    let ids =
      (build_outbox_payload recapped
        (prompted ∷ [])
        (codes "c1")
        (str (codes "x"))
        (codes "t")).injected_pattern_ids in
    Distinct ids × ((pid : Text) → Has pid ids ↔ NamedBy pid (prompted ∷ []))
injected_pattern_ids_iff_example =
    injected_pattern_ids_iff recapped (prompted ∷ []) (codes "c1") (str (codes "x")) (codes "t")
