-- ===== src/Context/Tests.antt =====
-- Runs of context_injection.py, and the theorems about it at inputs.
use omnicursor.Prelude.{◌≡◌, refl, none, some, [], ◌∷◌}
use omnicursor.Text.{Text, codes, is_empty, lower, starts_with, replace_char}
use omnicursor.Json.{ok}
use omnicursor.Learned.Session.{RawPattern, holds}
use omnicursor.Selection.{dicts}
use omnicursor.Context.Cache.{PatternCache, new_cache, is_warm}
use omnicursor.Context.{agent_domain, drop_prefix, nonempty_or, narrowed, fetch_patterns}
use omnicursor.Context.Fetching.{of_key, fetch_patterns-local}
use omnicursor.Context.Injected.{Refreshed, build_refresh_context-Refreshed}

run_domain : Text → Text
unfolding agent_domain drop_prefix lower starts_with replace_char is_empty
run_domain s = agent_domain s

-- the first prefix alone goes
one_prefix : run_domain (codes "agent-omnicursor-debug") ≡ codes "omnicursor_debug"
unfolding run_domain
one_prefix = refl

abbrev lesson : RawPattern
lesson = record {
  pattern_id = some (codes "p");
  pattern = none;
  domain = some (codes "python");
  weight = none;
  success_count = none;
  injection_count = none;
  utilization_successes = none;
  last_seen = none;
  description = some (codes "x\n# y");
}

fetch_patterns-local_example :
    (warm : PatternCache) × (fetch_patterns 9 none
        (holds (some lesson ∷ []))
        new_cache
        (codes "python")
        none
      ≡ ok (
        narrowed
            (nonempty_or
              (of_key (codes "python") (dicts (some lesson ∷ [])))
              (of_key (codes "general") (dicts (some lesson ∷ []))))
            (codes "python")
            none,
        warm,
      ))
    × (warm.last_updated_at ≡ some 9)
fetch_patterns-local_example =
    fetch_patterns-local 9 (some lesson ∷ []) new_cache (codes "python") none
      (unfold is_empty in refl) (unfold is_warm in refl)

build_refresh_context-Refreshed_example : Refreshed none (lesson ∷ []) (codes "python")
build_refresh_context-Refreshed_example =
    build_refresh_context-Refreshed none (lesson ∷ []) (codes "python")
