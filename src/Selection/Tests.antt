-- ===== src/Selection/Tests.antt =====
-- Runs of prompt_pattern_selection.py, and the theorem about it at an input.
use omnicursor.Prelude.{sort_by, insert_by, ◌≡◌, refl, none, some, List, [], ◌∷◌}
use omnicursor.Text.{Text, codes, same, lower, find_words, is_word, is_empty}
use omnicursor.Keywords.{member, is_keyword, stopwords, extract_keywords}
use omnicursor.Learned.Session.{RawPattern}
use omnicursor.Selection.{
  base_of, overlap, score_words, score_pattern_relevance, is_relevant, before_score, sort_best,
  score_le, scored_relevant, filter_patterns_by_relevance, description_words, to_set,
  prompt_keyword_set,
}
use omnicursor.Selection.Relevance.{Selected, filter_patterns-Selected}

abbrev blank : RawPattern
blank = record {
  pattern_id = none;
  pattern = none;
  domain = none;
  weight = none;
  success_count = none;
  injection_count = none;
  utilization_successes = none;
  last_seen = none;
  description = none;
}

abbrev general : RawPattern
general = record blank { description = some (codes "Deploy cluster") }

abbrev devops : RawPattern
devops = record blank { domain = some (codes "devops") }

abbrev python : RawPattern
python = record blank {
  domain = some (codes "python");
  description = some (codes "lint the package");
}

run_filter : Text → List RawPattern
unfolding filter_patterns_by_relevance sort_best before_score sort_by insert_by score_le
    scored_relevant is_relevant score_pattern_relevance score_words base_of overlap
    description_words prompt_keyword_set to_set extract_keywords is_keyword stopwords member same
    lower find_words is_word is_empty
run_filter prompt =
    filter_patterns_by_relevance (python ∷ general ∷ devops ∷ []) (codes "devops")
      (prompt_keyword_set prompt)

ranked : run_filter (codes "deploy it") ≡ devops ∷ general ∷ []
unfolding run_filter
ranked = refl

only_domain : run_filter (codes "") ≡ devops ∷ []
unfolding run_filter
only_domain = refl

filter_patterns-Selected_example :
    Selected (codes "devops") (codes "deploy" ∷ []) (python ∷ general ∷ devops ∷ []) (
      filter_patterns_by_relevance
        (python ∷ general ∷ devops ∷ [])
        (codes "devops")
        (codes "deploy" ∷ []))
filter_patterns-Selected_example =
    filter_patterns-Selected (python ∷ general ∷ devops ∷ []) (codes "devops") (codes "deploy" ∷ [])
