-- ===== src/Prompt/Tests.antt =====
-- Runs of user-prompt-submit.py, and the theorem about it at an input.
use omnicursor.Prelude.{◌≡◌, true, false, none, some, List, [], ◌∷◌, ◌++◌, All}
use omnicursor.Text.{Text, codes}
use omnicursor.Json.{unreadable, ok}
use omnicursor.Learned.Session.{absent}
use omnicursor.Scoring.{Fraction}
use omnicursor.Context.Cache.{new_cache}
use omnicursor.Prompt.{PromptInput, PromptStep, continued, Surroundings, prompt_main}
use omnicursor.Prompt.Leaving.{Keeps, prompt_main-Keeps}

abbrev half : Text → Text → Fraction
half s t = record { num = 1; den = 2 }

abbrev surroundings : Surroundings
surroundings = record {
  now = codes "2026-01-01T00:00:00";
  clock = 0;
  correlation_id = codes "k";
  agents = ok [];
  disk = record { dir_made = true; flag_there = false; touched = true; writable = true };
  store = λ id. unreadable;
  current = unreadable;
  api = none;
  source = absent;
  cache = new_cache;
}

abbrev asked : PromptInput
asked = record {
  prompt = codes "fix it with token=abcdefgh1";
  conversation_id = codes "c";
  generation_id = codes "g";
  is_background_agent = false;
}

prompt_main-Keeps_example :
    (steps : List PromptStep) × (prompt_main half (λ r. []) true surroundings (some asked)
      ≡ steps ++ (continued ∷ []))
    × All (Keeps surroundings asked) steps
prompt_main-Keeps_example = prompt_main-Keeps half (λ r. []) surroundings asked
