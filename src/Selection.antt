-- ===== src/Selection.antt =====
-- src/omnicursor/prompt_pattern_selection.py: the learned patterns that fit a prompt.
-- A score is an exact fraction, `num / (10 * den)`.
pub mod Relevance
mod Tests
use omnicursor.Prelude.{
  ℕ, zero, suc, ◌+◌, ◌*◌, Bool, true, false, not, ◌&&◌, Option, none, some, List, [], ◌∷◌, leb, ltb,
  ◌==◌, if◌then◌else◌, get_or, min, take, keep, length, map, sort_by,
}
use omnicursor.Text.{Text, codes, same, lower, find_words}
use omnicursor.Keywords.{member, extract_keywords, is_keyword}
use omnicursor.Json.{Result, ok, raised, attribute_error, unicode_error, ◌>>=◌}
use omnicursor.Learned.Session.{
  RawPattern, PatternsFile, absent, unparsed, undecodable, no_object, holds,
}

pub record Score : Type 0 where
  pub num : ℕ
  pub den : ℕ

-- `set(words)`, in the order of the first places
unfoldable pub to_set : List Text → List Text
to_set [] = []
to_set (w ∷ ws) = w ∷ keep (λ v. not (same v w)) (to_set ws)

-- `prompt_keyword_set`
unfoldable pub prompt_keyword_set : Text → List Text
prompt_keyword_set prompt = to_set (extract_keywords prompt)

-- `{w for w in ... if len(w) > 2} - STOPWORDS`
unfoldable pub description_words : Text → List Text
description_words description = to_set (keep is_keyword (find_words (lower description)))

-- ten times the base of a domain
unfoldable pub base_of : Text → Text → ℕ
base_of p_domain domain =
    if same p_domain domain then 10 else if same p_domain (codes "general") then 6 else 3

unfoldable pub overlap : List Text → List Text → ℕ
overlap prompt_words desc_words = length (keep (λ w. member w prompt_words) desc_words)

-- the base, boosted by two fifths of the overlap ratio, at most 1
unfoldable pub score_words : ℕ → List Text → List Text → Score
score_words base prompt_words [] = record { num = base; den = 1 }
score_words base [] (w ∷ ws) = record { num = base; den = 1 }
score_words base (v ∷ vs) (w ∷ ws) =
    let n = length (w ∷ ws) in
    record { num = min (10 * n) (base * n + 4 * overlap (v ∷ vs) (w ∷ ws)); den = n }

-- `score_pattern_relevance`
unfoldable pub score_pattern_relevance : RawPattern → Text → List Text → Score
score_pattern_relevance p domain prompt_words =
    score_words (base_of (get_or p.domain (codes "general")) domain) prompt_words
      (description_words (get_or p.description []))

-- `s >= 0.7`
unfoldable pub is_relevant : Score → Bool
is_relevant s = leb (7 * s.den) s.num

unfoldable pub score_le : Score → Score → Bool
score_le s t = leb (s.num * t.den) (t.num * s.den)

-- `sort(key=score, reverse=True)`, stable
unfoldable pub before_score : RawPattern × Score → RawPattern × Score → Bool
before_score x y = score_le y.1 x.1

unfoldable pub sort_best : List (RawPattern × Score) → List (RawPattern × Score)
sort_best xs = sort_by before_score xs

abbrev pub pattern_of : RawPattern × Score → RawPattern
pattern_of x = x.0

unfoldable pub scored_relevant : List RawPattern → Text → List Text → List (RawPattern × Score)
scored_relevant [] domain prompt_words = []
scored_relevant (p ∷ ps) domain prompt_words =
    let s = score_pattern_relevance p domain prompt_words in
    let rest = scored_relevant ps domain prompt_words in
    if is_relevant s then (p, s) ∷ rest else rest

abbrev pub max_patterns : ℕ
max_patterns = 5

-- `filter_patterns_by_relevance`, with its default threshold and limit
unfoldable pub filter_patterns_by_relevance : List RawPattern → Text → List Text → List RawPattern
filter_patterns_by_relevance patterns domain prompt_words =
    map pattern_of (take max_patterns (sort_best (scored_relevant patterns domain prompt_words)))

unfoldable pub dicts : List (Option RawPattern) → List RawPattern
dicts [] = []
dicts (none ∷ raw) = dicts raw
dicts (some p ∷ raw) = p ∷ dicts raw

-- `load_pattern_dicts_from_file`
unfoldable pub load_pattern_dicts_from_file : PatternsFile → Result (List RawPattern)
load_pattern_dicts_from_file absent = ok []
load_pattern_dicts_from_file unparsed = ok []
load_pattern_dicts_from_file undecodable = raised unicode_error
load_pattern_dicts_from_file no_object = raised attribute_error
load_pattern_dicts_from_file (holds raw) = ok (dicts raw)

-- `select_patterns_for_prompt`
unfoldable pub select_patterns_for_prompt : PatternsFile → Text → Text → Result (List RawPattern)
select_patterns_for_prompt file prompt domain = load_pattern_dicts_from_file file >>= λ raw.
    ok (filter_patterns_by_relevance raw domain (prompt_keyword_set prompt))
