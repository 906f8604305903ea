-- ===== src/Learned/Tests.antt =====
-- Runs of pattern_writer.py, and the theorems about it at inputs.
use omnicursor.Prelude.{
  ℕ, max, ◌≡◌, refl, true, false, Option, none, some, List, [], ◌∷◌, length, take, map, arith,
}
use omnicursor.Text.{Text, codes, same, is_empty}
use omnicursor.Json.{Result, ok}
use omnicursor.Keywords.{member}
use omnicursor.Event.{Event, blank_event, is_event}
use omnicursor.Learned.{Pattern}
use omnicursor.Learned.Steps.{decay_pattern, evict_overflow, pattern_key, upsert_pattern}
use omnicursor.Learned.Session.{
  RawPattern, PatternsFile, absent, holds, complete, complete_all, identify, load_patterns,
  agent_to_domain, strip_prefix, last_index, Tally, count_ids, count_events, write_session_patterns,
  updated,
}
use omnicursor.Learned.Weights.{KeptOption, write_session_patterns-Kept}
use omnicursor.Learned.Overflow.{of_domain, ByWeight, of_domain-evict_overflow}
use omnicursor.Learned.Failure.{updated_failure}
use omnicursor.Learned.Decay.{Decayed, decay_pattern-Decayed}
use omnicursor.Learned.Upsert.{at_place, elsewhere, upsert_pattern_lem}
use omnicursor.Learned.Metrics.{uncounted}
use omnicursor.Learned.Touch.{reached, inject_where, count_ids-exact}

abbrev raw_one : RawPattern
raw_one = record {
  pattern_id = some (codes "p1");
  pattern = some (codes "deploy");
  domain = some (codes "devops");
  weight = some 600;
  success_count = none;
  injection_count = none;
  utilization_successes = none;
  last_seen = none;
  description = none;
}

abbrev one : Pattern
one = record {
  pattern_id = codes "p1";
  pattern = some (codes "deploy");
  domain = some (codes "devops");
  weight = some 600;
  success_count = none;
  injection_count = 0;
  utilization_successes = 0;
  last_seen = none;
  description = none;
}

abbrev two : Pattern
two = record one { pattern_id = codes "p2"; weight = some 700 }

abbrev injecting : Event
injecting = record blank_event {
  event = some (codes "prompt_classified");
  injected_pattern_ids = some (codes "p2" ∷ codes "p2" ∷ []);
}

abbrev digest : Text → Text
digest s = s

abbrev score_text : ℕ → Text
score_text n = codes "0.55"

run_loaded : PatternsFile → Result (List Pattern)
unfolding load_patterns complete_all complete identify is_empty
run_loaded file = load_patterns digest file

loads_one : run_loaded (holds (none ∷ some raw_one ∷ [])) ≡ ok (one ∷ [])
unfolding run_loaded
loads_one = refl

run_count : List Event → Tally
unfolding count_events count_ids is_event last_index same is_empty member
run_count es =
    count_events (λ pid. last_index pid 0 (one ∷ two ∷ [])) false 5 es
      (record { existing = one ∷ two ∷ []; changed = 0 })

write_session_patterns-Kept_example :
    (changed : ℕ) × (saved : Option (List Pattern)) × (write_session_patterns digest score_text 5
        (holds (some raw_one ∷ []))
        (injecting ∷ [])
        1
        (codes "success")
      ≡ ok (changed, saved))
    × KeptOption saved
write_session_patterns-Kept_example =
    write_session_patterns-Kept digest score_text 5 (holds (some raw_one ∷ [])) (one ∷ [])
      (injecting ∷ []) 1 (codes "success") (unfold run_loaded in refl)
      ((600, refl, omega arith), tt)

of_domain-evict_overflow_example :
    (sorted : List Pattern) × ByWeight (of_domain (codes "devops") (one ∷ two ∷ [])) sorted
    × (of_domain (codes "devops") (evict_overflow (one ∷ two ∷ [])) ≡ take 20 sorted)
of_domain-evict_overflow_example = of_domain-evict_overflow (codes "devops") (one ∷ two ∷ [])

count_ids-exact_example :
    (count_ids
      (λ pid. last_index pid 0 (one ∷ two ∷ []))
      true
      5
      []
      (codes "p2" ∷ codes "p2" ∷ [])
      (record { existing = one ∷ two ∷ []; changed = 0 })).existing
    ≡ inject_where true 5
        (reached (λ pid. last_index pid 0 (one ∷ two ∷ [])) [] (codes "p2" ∷ codes "p2" ∷ []))
        0
        (one ∷ two ∷ [])
count_ids-exact_example =
    count_ids-exact (one ∷ two ∷ []) true 5 (codes "p2" ∷ codes "p2" ∷ [])
      (record { existing = one ∷ two ∷ []; changed = 0 })

counts_once : (run_count (injecting ∷ [])).changed ≡ 1
unfolding run_count omnicursor.Learned.Session.count_found
counts_once = refl

updated_failure_example :
    map uncounted
      (updated digest score_text 5 (injecting ∷ []) 1 (codes "failed") (one ∷ two ∷ [])).existing
    ≡ map uncounted (one ∷ two ∷ [])
updated_failure_example =
    updated_failure digest score_text 5 (injecting ∷ []) 1 (codes "failed") (one ∷ two ∷ [])
      (unfold same in refl)

upsert_pattern_lem_example :
    let key = pattern_key (codes "deploy" ∷ []) in
    let after =
      upsert_pattern digest
        (one ∷ two ∷ [])
        (codes "devops")
        (codes "deploy" ∷ [])
        (codes "d")
        5
        false in
    (length (at_place (codes "devops") key after)
      ≡ max 1 (length (at_place (codes "devops") key (one ∷ two ∷ []))))
    × (elsewhere (codes "devops") key after ≡ elsewhere (codes "devops") key (one ∷ two ∷ []))
upsert_pattern_lem_example =
    upsert_pattern_lem digest (one ∷ two ∷ []) (codes "devops") (codes "deploy" ∷ []) (codes "d") 5
      false

decay_pattern-Decayed_example : Decayed 9000000000000 one (decay_pattern 9000000000000 one)
decay_pattern-Decayed_example = decay_pattern-Decayed 9000000000000 one
