-- ===== src/Learned/Session.antt =====
-- pattern_writer.py: loading the patterns, the candidates of a session, and the whole update.
-- What the file is written with is the result; a failing write is silent in the code.
use omnicursor.Prelude.{
  ℕ, zero, suc, ◌+◌, Bool, true, false, not, ◌&&◌, ◌||◌, Option, none, some, List, [], ◌∷◌, ◌++◌,
  ltb, ◌==◌, if◌then◌else◌, get_or, take, drop, length,
}
use omnicursor.Text.{Text, codes, same, is_empty, lower, starts_with, replace_char}
use omnicursor.Keywords.{member, extract_keywords}
use omnicursor.Redaction.{redact_secrets}
use omnicursor.Json.{Result, ok, raised, attribute_error, unicode_error, ◌>>=◌}
use omnicursor.Event.{Event, is_event}
use omnicursor.Learned.{Pattern, hard_floor, boosted_increment}
use omnicursor.Learned.Steps.{
  make_pattern_id, decay_patterns, upsert_pattern, evict_low_utilization, evict_overflow,
  raise_weight,
}

-- An entry of the file, each key present or not.
pub record RawPattern : Type 0 where
  pub pattern_id : Option Text
  pub pattern : Option Text
  pub domain : Option Text
  pub weight : Option ℕ
  pub success_count : Option ℕ
  pub injection_count : Option ℕ
  pub utilization_successes : Option ℕ
  pub last_seen : Option ℕ
  pub description : Option Text

-- learned_patterns.json: not there, not opened or no JSON, no UTF-8, no object, or an object with
-- its list "patterns", of which the entries that are no objects are `none`
pub data PatternsFile : Type 0 where
  absent unparsed undecodable no_object : PatternsFile
  holds : List (Option RawPattern) → PatternsFile

-- `if not record.get("pattern_id")`
unfoldable pub identify : (Text → Text) → RawPattern → Text
identify digest r =
    let given = get_or r.pattern_id [] in
    if is_empty given
    then make_pattern_id digest (get_or r.domain (codes "general")) (get_or r.pattern [])
    else given

unfoldable pub complete : (Text → Text) → RawPattern → Pattern
complete digest r = record {
  pattern_id = identify digest r;
  pattern = r.pattern;
  domain = r.domain;
  weight = r.weight;
  success_count = r.success_count;
  injection_count = get_or r.injection_count 0;
  utilization_successes = get_or r.utilization_successes 0;
  last_seen = r.last_seen;
  description = r.description;
}

unfoldable pub complete_all : (Text → Text) → List (Option RawPattern) → List Pattern
complete_all digest [] = []
complete_all digest (none ∷ raw) = complete_all digest raw
complete_all digest (some r ∷ raw) = complete digest r ∷ complete_all digest raw

-- `_load_patterns`
unfoldable pub load_patterns : (Text → Text) → PatternsFile → Result (List Pattern)
load_patterns digest absent = ok []
load_patterns digest unparsed = ok []
load_patterns digest undecodable = raised unicode_error
load_patterns digest no_object = raised attribute_error
load_patterns digest (holds raw) = ok (complete_all digest raw)

-- `_agent_to_domain`: both prefixes go, in turn
unfoldable pub strip_prefix : Text → Text → Text
strip_prefix prefix s = if starts_with s prefix then drop (length prefix) s else s

unfoldable pub agent_to_domain : Text → Text
agent_to_domain agent =
    replace_char b'-' b'_'
      (strip_prefix (codes "omnicursor-") (strip_prefix (codes "agent-") (lower agent)))

pub record Candidate : Type 0 where
  pub domain : Text
  pub keywords : List Text
  pub description : Text
  pub injected : Bool

-- `"Auto-learned: {} → {} (score {:.2f})".format(...)`, with `score_text` for the last format
unfoldable pub describe : (ℕ → Text) → Text → Text → ℕ → Text
describe score_text snippet agent score =
    codes "Auto-learned: "
    ++ (take 60 (redact_secrets snippet)
        ++ (codes " → " ++ (agent ++ (codes " (score " ++ (score_text score ++ codes ")")))))

-- the tests of one event: a decisive route to a specialist, with a snippet
unfoldable pub is_decisive : Event → Bool
is_decisive e =
    let agent = get_or e.matched_agent [] in
    is_event e (codes "prompt_classified")
    && not (is_empty agent || same agent (codes "polymorphic-agent"))
    && not (ltb (get_or e.score 0) hard_floor)
    && not (is_empty (get_or e.prompt_snippet []))

unfoldable pub candidate_of : (ℕ → Text) → Event → List Text → Candidate
candidate_of score_text e keywords = record {
  domain = agent_to_domain (get_or e.matched_agent []);
  keywords = keywords;
  description =
      describe score_text (get_or e.prompt_snippet []) (get_or e.matched_agent [])
        (get_or e.score 0);
  injected = ltb 0 (get_or e.patterns_injected 0);
}

unfoldable pub with_keywords : (ℕ → Text) → Event → List Text → List Candidate → List Candidate
with_keywords score_text e [] rest = rest
with_keywords score_text e (k ∷ ks) rest = candidate_of score_text e (k ∷ ks) ∷ rest

-- `extract_patterns_from_events`; the count of edited files is not used there
unfoldable pub extract_patterns_from_events : (ℕ → Text) → List Event → List Candidate
extract_patterns_from_events score_text [] = []
extract_patterns_from_events score_text (e ∷ events) =
    let rest = extract_patterns_from_events score_text events in
    if is_decisive e
    then with_keywords score_text e (extract_keywords (get_or e.prompt_snippet [])) rest
    else rest

-- `id_index`: the last place of an identifier. The places are those of the patterns as loaded.
unfoldable pub last_index : Text → ℕ → List Pattern → Option ℕ
last_index pid i [] = none
last_index pid i (p ∷ ps) = elim (last_index pid (suc i) ps) [
  | some j ↦ some j
  | none ↦ if not (is_empty p.pattern_id) && same p.pattern_id pid then some i else none
]

-- one injection of a pattern
unfoldable pub count_injection : Bool → ℕ → Pattern → Pattern
count_injection true now p = record p {
  injection_count = p.injection_count + 1;
  utilization_successes = p.utilization_successes + 1;
  weight = some (raise_weight p.weight boosted_increment);
  last_seen = some now;
}
count_injection false now p = record p { injection_count = p.injection_count + 1 }

-- `existing[idx] = ...`
unfoldable pub count_at : Bool → ℕ → ℕ → List Pattern → List Pattern
count_at success now i [] = []
count_at success now zero (p ∷ ps) = count_injection success now p ∷ ps
count_at success now (suc i) (p ∷ ps) = p ∷ count_at success now i ps

pub record Tally : Type 0 where
  pub existing : List Pattern
  pub changed : ℕ

module _ (index : Text → Option ℕ) (success : Bool) (now : ℕ) where
  unfoldable pub count_found : Option ℕ → Tally → Tally
  count_found none t = t
  count_found (some i) t = record {
    existing = count_at success now i t.existing;
    changed = t.changed + 1;
  }

  -- the loop over the identifiers of one event; `seen` are those that it met
  unfoldable pub count_ids : List Text → List Text → Tally → Tally
  count_ids seen [] t = t
  count_ids seen (pid ∷ pids) t = elim (is_empty pid || member pid seen) [
    | true ↦ count_ids seen pids t
    | false ↦ count_ids (pid ∷ seen) pids (count_found (index pid) t)
  ]

  -- the loop over the events
  unfoldable pub count_events : List Event → Tally → Tally
  count_events [] t = t
  count_events (e ∷ events) t = elim (is_event e (codes "prompt_classified")) [
    | true ↦ count_events events (count_ids [] (get_or e.injected_pattern_ids []) t)
    | false ↦ count_events events t
  ]

-- the loop over the candidates
unfoldable pub learn_all : (Text → Text) → ℕ → List Candidate → Tally → Tally
learn_all digest now [] t = t
learn_all digest now (c ∷ cs) t = learn_all digest now cs (record {
  existing = upsert_pattern digest t.existing c.domain c.keywords c.description now false;
  changed = t.changed + 1;
})

unfoldable pub save_tally : Tally → Option (List Pattern)
save_tally t = some (evict_overflow (evict_low_utilization t.existing))

-- `if not existing and changed == 0: return 0`: nothing is written where there is nothing to write
unfoldable pub finish_with : List Pattern → ℕ → Option (List Pattern) → ℕ × Option (List Pattern)
finish_with [] changed saved = if changed == 0 then (0, none) else (changed, saved)
finish_with (p ∷ ps) changed saved = (changed, saved)

unfoldable pub finish : Tally → ℕ × Option (List Pattern)
finish t = finish_with t.existing t.changed (save_tally t)

module _ (digest : Text → Text) (score_text : ℕ → Text) (now : ℕ) where
  unfoldable pub updated : List Event → ℕ → Text → List Pattern → Tally
  updated events files_edited outcome existing =
      let success = same outcome (codes "success") in
      let t =
        count_events (λ pid. last_index pid 0 existing) success now events
          (record { existing = existing; changed = 0 }) in
      if success && ltb 0 files_edited
      then learn_all digest now (extract_patterns_from_events score_text events) t
      else t

  -- `write_session_patterns`: the count that it returns, and what it writes to the file
  unfoldable pub write_session_patterns :
      PatternsFile → List Event → ℕ → Text → Result (ℕ × Option (List Pattern))
  write_session_patterns file events files_edited outcome = load_patterns digest file >>= λ loaded.
      (decay_patterns now loaded >>= λ existing.
      ok (finish (updated events files_edited outcome existing)))
