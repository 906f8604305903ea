-- ===== src/SessionOutcome.antt =====
-- src/omnicursor/session_outcome.py: the outcome of a session from its status and its events, and
-- the recap. Times are in microseconds; `parse` stands for `datetime.fromisoformat(...).timestamp()`
-- (`none` is ValueError), `seconds` for the format `{:.1f}` of a time in seconds.
pub mod Markers
pub mod Gates
mod Tests
use omnicursor.Prelude.{
  ℕ, zero, suc, ◌+◌, ◌-◌, Bool, true, false, not, ◌&&◌, ◌||◌, Option, none, some, List, [], ◌∷◌,
  ◌++◌, ltb, leb, ◌==◌, if◌then◌else◌, get_or, min, max, any, keep, length,
}
use omnicursor.Text.{Text, codes, same, is_empty, lower, join, decimal, replace_by}
use omnicursor.Keywords.{member}
use omnicursor.Regex.{Regex, Run, runs, last_or, re_search}
use omnicursor.Event.{Event, is_event}
use omnicursor.SessionOutcome.Markers.{
  error_markers, failed_eol, zero_count_prefix, completion_markers,
}

-- the text from the last newline on, one character further
unfoldable pub extend_line : Text → Text → Text
extend_line line [] = line
extend_line line (c ∷ a) = extend_line (if c == 10 then [] else line ++ c ∷ []) a

-- `_FAILED_EOL_RE.finditer(text)`, each match with the line before it. Each round consumes a
-- character, as the pattern does not match the empty text: the length of the text is fuel enough.
unfoldable pub failed_lines : ℕ → Option ℕ → Text → Text → List Text
failed_lines zero prev line t = []
failed_lines (suc n) prev line [] = []
failed_lines (suc n) prev line (c ∷ t) = elim (runs failed_eol prev (c ∷ t)) [
  | [] ↦ failed_lines n (some c) (extend_line line (c ∷ [])) t
  | (a, u) ∷ l ↦ (line ++ a) ∷ failed_lines n (last_or prev a) (extend_line line a) u
]

unfoldable pub any_search : List Regex → Text → Bool
any_search rs text = any (λ r. re_search r text) rs

-- a line that ends in FAILED counts, unless it says that zero failed
unfoldable pub has_failed_line : Text → Bool
has_failed_line text =
    any (λ line. not (re_search zero_count_prefix line)) (failed_lines (length text) none [] text)

-- `_has_error_markers`
unfoldable pub has_error_markers : Text → Bool
has_error_markers text = any_search error_markers text || has_failed_line text

-- `_has_completion_markers`
unfoldable pub has_completion_markers : Text → Bool
has_completion_markers text = any_search completion_markers text

-- what one event adds to the parts
unfoldable pub event_parts : Event → List Text
event_parts e =
    let kind = get_or e.event [] in
    if same kind (codes "prompt_classified")
    then get_or e.reason [] ∷ get_or e.prompt_snippet [] ∷ []
    else if same kind (codes "file_edited")
    then get_or e.file_path [] ∷ []
    else if same kind (codes "shell_guard")
    then get_or e.decision [] ∷ []
    else []

unfoldable pub all_parts : List Event → List Text
all_parts [] = []
all_parts (e ∷ events) = event_parts e ++ all_parts events

-- `_events_to_text`
unfoldable pub events_to_text : List Event → Text
events_to_text events = join (codes "\n") (keep (λ p. not (is_empty p)) (all_parts events))

-- `sum(1 for e in events if e.get("event") in {...})`
unfoldable pub is_work : Event → Bool
is_work e = is_event e (codes "file_edited") || is_event e (codes "prompt_classified")

unfoldable pub count_work : List Event → ℕ
count_work events = length (keep is_work events)

unfoldable pub maximum : ℕ → List ℕ → ℕ
maximum m [] = m
maximum m (t ∷ ts) = maximum (max m t) ts

unfoldable pub minimum : ℕ → List ℕ → ℕ
minimum m [] = m
minimum m (t ∷ ts) = minimum (min m t) ts

-- `max(timestamps) - min(timestamps)` of two or more
unfoldable pub spread : List ℕ → ℕ
spread [] = 0
spread (t ∷ []) = 0
spread (t ∷ u ∷ ts) = maximum t (u ∷ ts) - minimum t (u ∷ ts)

-- `ABANDON_THRESHOLD_SECONDS`
abbrev pub abandon_threshold : ℕ
abandon_threshold = 60000000

unfoldable pub exit_failed : Text → Bool
exit_failed status = member (lower status) (codes "failed" ∷ codes "error" ∷ codes "aborted" ∷ [])

unfoldable pub corpus_of : Text → List Event → Text
corpus_of status events = status ++ (codes "\n" ++ events_to_text events)

pub data Outcome : Type 0 where
  failed success abandoned unknown : Outcome

-- the texts that the program hands on
unfoldable pub outcome_text : Outcome → Text
outcome_text failed = codes "failed"
outcome_text success = codes "success"
outcome_text abandoned = codes "abandoned"
outcome_text unknown = codes "unknown"

unfoldable pub success_reason : ℕ → Text
success_reason work_done =
    codes "Session completed with "
    ++ (decimal work_done
        ++ (codes " work event"
            ++ ((if work_done == 1 then [] else codes "s") ++ codes " and completion markers")))

module _ (parse : Text → Option ℕ) where
  unfoldable pub timestamp_of : Event → List ℕ
  timestamp_of e =
      let ts = get_or e.timestamp [] in
      if is_empty ts
      then []
      else elim (parse (replace_by b'Z' (codes "+00:00") ts)) [ none ↦ [] | some t ↦ t ∷ [] ]

  unfoldable pub timestamps : List Event → List ℕ
  timestamps [] = []
  timestamps (e ∷ events) = timestamp_of e ++ timestamps events

  -- `_compute_duration`
  unfoldable pub compute_duration : List Event → ℕ
  compute_duration events = spread (timestamps events)

-- the four gates, on what they ask
unfoldable pub gates : (ℕ → Text) → Bool → Bool → Bool → ℕ → ℕ → Outcome × Text
gates seconds by_status has_errors has_completion duration work_done =
    if by_status || has_errors
    then (
      failed,
      if by_status
          then codes "Status indicates failure"
          else codes "Error markers detected in session events",
    )
    else if ltb 0 work_done && has_completion
    then (success, success_reason work_done)
    else if not has_completion && ltb duration abandon_threshold
    then (
      abandoned,
      codes "Session ended after " ++ (seconds duration ++ codes "s without completion markers"),
    )
    else (unknown, codes "Insufficient signal to classify session outcome")

module _ (parse : Text → Option ℕ) (seconds : ℕ → Text) where
  -- `derive_session_outcome`
  unfoldable pub derive_session_outcome : Text → List Event → Outcome × Text
  derive_session_outcome status events =
      let corpus = corpus_of status events in
      gates seconds (exit_failed status) (has_error_markers corpus) (has_completion_markers corpus)
        (compute_duration parse events) (count_work events)
