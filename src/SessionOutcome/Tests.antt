-- ===== src/SessionOutcome/Tests.antt =====
-- Runs of session_outcome.py, and the theorem about it at an input.
use omnicursor.Prelude.{◌≡◌, refl, ◌↔◌, Bool, true, false, none, some, [], ◌∷◌}
use omnicursor.Text.{Text, codes, is_word, is_space, is_digit}
use omnicursor.Event.{Event, blank_event}
use omnicursor.Regex.{re_search, runs, last_or}
use omnicursor.SessionOutcome.Markers.{error_markers, line_word, failed_eol, zero_count_prefix}
use omnicursor.SessionOutcome.{
  success, has_error_markers, failed_lines, extend_line, any_search, has_failed_line,
  derive_session_outcome,
}
use omnicursor.SessionOutcome.Gates.{Meaning, derive_session_outcome_iff}

run_errors : Text → Bool
unfolding has_error_markers any_search error_markers line_word has_failed_line failed_lines
    extend_line failed_eol zero_count_prefix re_search runs last_or is_word is_space is_digit
run_errors text = has_error_markers text

zero_failed_passes : run_errors (codes "ran\n0 FAILED\nok") ≡ false
unfolding run_errors
zero_failed_passes = refl

failed_line_counts : run_errors (codes "ran\nsuite FAILED \nok") ≡ true
unfolding run_errors
failed_line_counts = refl

traceback_counts : run_errors (codes "x\n  ValueError: y") ≡ true
unfolding run_errors
traceback_counts = refl

abbrev edited : Event
edited = record blank_event { event = some (codes "file_edited") }

derive_session_outcome_iff_example :
    ((derive_session_outcome (λ s. none) (λ n. []) (codes "completed") (edited ∷ [])).0 ≡ success)
    ↔ Meaning (λ s. none) (codes "completed") (edited ∷ []) success
derive_session_outcome_iff_example =
    derive_session_outcome_iff (λ s. none) (λ n. []) (codes "completed") (edited ∷ []) success
