-- ===== src/Stop.antt =====
-- .cursor/hooks/scripts/stop.py: the summary of a session and the payload of its outcome, with the
-- recap of src/omnicursor/session_outcome.py.
pub mod Counts
pub mod Payload
pub mod Ids
pub mod Main
mod Tests
use omnicursor.Prelude.{
  ℕ, zero, suc, ◌+◌, Bool, true, false, not, ◌&&◌, ◌||◌, Option, none, some, List, [], ◌∷◌, ◌++◌,
  if◌then◌else◌, get_or, length,
}
use omnicursor.Text.{Text, codes, same, is_empty, join, decimal}
use omnicursor.Text.Order.{sorted}
use omnicursor.Keywords.{member}
use omnicursor.Json.{Result, ok, raised, attribute_error, ◌>>=◌}
use omnicursor.Event.{Event, is_event, is_text}
use omnicursor.SessionOutcome.{Outcome, outcome_text, derive_session_outcome}

-- A line of the event log: blank, no JSON, JSON that is no object, or an event.
pub data LogLine : Type 0 where
  blank malformed no_object : LogLine
  entry : Event → LogLine

-- `_load_events`, on the lines of a log that can be read; a log that is not there has none
unfoldable pub load_events : Text → List LogLine → Result (List Event)
load_events conversation_id [] = ok []
load_events conversation_id (blank ∷ log) = load_events conversation_id log
load_events conversation_id (malformed ∷ log) = load_events conversation_id log
load_events conversation_id (no_object ∷ log) = raised attribute_error
load_events conversation_id (entry e ∷ log) = load_events conversation_id log >>= λ rest.
    ok (if is_text e.conversation_id conversation_id then e ∷ rest else rest)

pub record Tally : Type 0 where
  pub prompts_classified : ℕ
  pub edited_files : List Text
  pub languages : List Text
  pub allowed : ℕ
  pub denied : ℕ
  pub warned : ℕ

abbrev pub empty_tally : Tally
empty_tally = record {
  prompts_classified = 0;
  edited_files = [];
  languages = [];
  allowed = 0;
  denied = 0;
  warned = 0;
}

-- `s.add(x)`, the set as a list without repetition
unfoldable pub set_add : Text → List Text → List Text
set_add x xs = if member x xs then xs else xs ++ x ∷ []

unfoldable pub add_language : Text → List Text → List Text
add_language lang langs =
    if not (is_empty lang) && not (same lang (codes "other")) then set_add lang langs else langs

unfoldable pub count_edit : Event → Tally → Tally
count_edit e t =
    let fp = get_or e.file_path [] in
    record t {
      edited_files = if is_empty fp then t.edited_files else set_add fp t.edited_files;
      languages = add_language (get_or e.language []) t.languages;
    }

unfoldable pub count_decision : Text → Tally → Tally
count_decision decision t =
    if same decision (codes "deny")
    then record t { denied = t.denied + 1 }
    else if same decision (codes "warn")
    then record t { warned = t.warned + 1 }
    else record t { allowed = t.allowed + 1 }

-- the body of the loop of `aggregate_session`
unfoldable pub count_event : Event → Tally → Tally
count_event e t =
    let kind = get_or e.event [] in
    if same kind (codes "prompt_classified")
    then record t { prompts_classified = t.prompts_classified + 1 }
    else if same kind (codes "file_edited")
    then count_edit e t
    else if same kind (codes "shell_guard")
    then count_decision (get_or e.decision (codes "allow")) t
    else t

unfoldable pub count_all : List Event → Tally → Tally
count_all [] t = t
count_all (e ∷ events) t = count_all events (count_event e t)

pub record Summary : Type 0 where
  pub conversation_id : Text
  pub session_status : Text
  pub session_outcome : Outcome
  pub session_outcome_reason : Text
  pub prompts_classified : ℕ
  pub files_edited : ℕ
  pub allowed : ℕ
  pub denied : ℕ
  pub warned : ℕ
  pub languages : List Text

module _ (parse : Text → Option ℕ) (seconds : ℕ → Text) where
  unfoldable pub summarize : Text → Text → List Event → Summary
  summarize conversation_id status events =
      let t = count_all events empty_tally in
      let o = derive_session_outcome parse seconds status events in
      record {
        conversation_id = conversation_id;
        session_status = status;
        session_outcome = o.0;
        session_outcome_reason = o.1;
        prompts_classified = t.prompts_classified;
        files_edited = length t.edited_files;
        allowed = t.allowed;
        denied = t.denied;
        warned = t.warned;
        languages = sorted t.languages;
      }

  -- `aggregate_session`
  unfoldable pub aggregate_session : Text → Text → List LogLine → Result Summary
  aggregate_session conversation_id status log =
      load_events conversation_id log >>= λ events. ok (summarize conversation_id status events)

abbrev pub none_or : List Text → Text
none_or [] = codes "none"
none_or (l ∷ ls) = join (codes ", ") (l ∷ ls)

-- `format_recap`
unfoldable pub shell_line : Summary → Text
shell_line s =
    codes "**Shell commands:** "
    ++ (decimal s.allowed
        ++ (codes " allowed, "
            ++ (decimal s.warned ++ (codes " warned, " ++ (decimal s.denied ++ codes " denied")))))

unfoldable pub format_recap : Summary → Text
format_recap s = join (codes "\n") (
    codes "## Session Recap (auto)"
    ∷ (codes "**Outcome:** " ++ outcome_text s.session_outcome)
    ∷ (codes "**Files edited:** " ++ decimal s.files_edited)
    ∷ (codes "**Prompts classified:** " ++ decimal s.prompts_classified)
    ∷ shell_line s
    ∷ (codes "**Languages:** " ++ none_or s.languages)
    ∷ [])
