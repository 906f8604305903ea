-- ===== src/Event.antt =====
-- A line of ~/.omnicursor/events.jsonl as the stop hook reads it back: the keys that the program
-- asks for, each present or not. Scores are in ten-thousandths.
use omnicursor.Prelude.{ℕ, Bool, false, Option, none, some, List}
use omnicursor.Text.{Text, same}

pub record Event : Type 0 where
  pub event : Option Text
  pub conversation_id : Option Text
  pub matched_agent : Option Text
  pub matched_confidence : Option ℕ
  pub score : Option ℕ
  pub reason : Option Text
  pub prompt_snippet : Option Text
  pub patterns_injected : Option ℕ
  pub injected_pattern_ids : Option (List Text)
  pub file_path : Option Text
  pub language : Option Text
  pub decision : Option Text
  pub ts : Option Text
  pub timestamp : Option Text

abbrev pub blank_event : Event
blank_event = record {
  event = none;
  conversation_id = none;
  matched_agent = none;
  matched_confidence = none;
  score = none;
  reason = none;
  prompt_snippet = none;
  patterns_injected = none;
  injected_pattern_ids = none;
  file_path = none;
  language = none;
  decision = none;
  ts = none;
  timestamp = none;
}

-- `value == name`, false where the value is `None`
unfoldable pub is_text : Option Text → Text → Bool
unfolding same
is_text none name = false
is_text (some s) name = same s name

-- `evt.get("event") == name`
unfoldable pub is_event : Event → Text → Bool
unfolding is_text
is_event e name = is_text e.event name
