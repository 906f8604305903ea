-- ===== src/SessionOutcome/Markers.antt =====
-- src/omnicursor/session_outcome.py: the patterns of its error and completion markers.
use omnicursor.Prelude.{◌&&◌, ◌||◌, List, [], ◌∷◌, leb, ◌==◌}
use omnicursor.Text.{Text, codes, is_word, is_digit}
use omnicursor.Regex.{
  Regex, set, alt, star, bound, at_start, at_eol, plus, opt, chr, lit, lit_i, space, cat,
}

-- `(?:^|\n)\s*\w*`, in front of a word that ends a traceback
unfoldable pub line_word : Text → Regex
line_word word = cat (alt at_start (chr 10) ∷ star space ∷ star (set is_word) ∷ lit word ∷ [])

unfoldable pub error_markers : List Regex
error_markers =
    line_word (codes "Error:")
    ∷ line_word (codes "Exception:")
    ∷ cat (bound ∷ lit (codes "Traceback") ∷ bound ∷ [])
    ∷ alt
        (cat (
          set (λ c. leb b'1' c && leb c b'9')
          ∷ star (set is_digit)
          ∷ plus space
          ∷ lit (codes "FAILED")
          ∷ bound
          ∷ []))
        (cat (
          set (λ c. c == b'T' || c == b't')
          ∷ lit (codes "est")
          ∷ opt (chr b's')
          ∷ plus space
          ∷ lit (codes "FAILED")
          ∷ bound
          ∷ []))
    ∷ []

-- `\bFAILED\s*$` under MULTILINE
unfoldable pub failed_eol : Regex
failed_eol = cat (bound ∷ lit (codes "FAILED") ∷ star space ∷ at_eol ∷ [])

-- `\b0+\s+FAILED\b`
unfoldable pub zero_count_prefix : Regex
zero_count_prefix = cat (bound ∷ plus (chr b'0') ∷ plus space ∷ lit (codes "FAILED") ∷ bound ∷ [])

unfoldable pub completion_marker : Text → Regex
completion_marker word = cat (bound ∷ lit_i word ∷ bound ∷ [])

unfoldable pub completion_markers : List Regex
completion_markers =
    completion_marker (codes "completed")
    ∷ completion_marker (codes "done")
    ∷ completion_marker (codes "finished")
    ∷ completion_marker (codes "success")
    ∷ []
