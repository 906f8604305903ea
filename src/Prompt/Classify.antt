-- ===== src/Prompt/Classify.antt =====
-- .cursor/hooks/scripts/user-prompt-submit.py: the agent that a prompt is classified by, and whether
-- it calls for delegation.
use omnicursor.Prelude.{Bool, not, ◌&&◌, ◌||◌, List, [], ◌∷◌, if◌then◌else◌, keep, leb, ltb, length}
use omnicursor.Text.{Text, codes, is_empty, lower, find_words}
use omnicursor.Keywords.{member}
use omnicursor.Regex.{Regex, alt, bound, lit_i, plus, space, cat, re_search}
use omnicursor.Selection.{to_set, prompt_keyword_set}
use omnicursor.Scoring.{Fraction, exceeds, reaches, hard_floor, Agent, Best, score_agent}

-- the name of a configuration, and what is scored of it
abbrev pub NamedAgent : Type 0
NamedAgent = Text × Agent

-- `_COMPLEX_VERBS`
abbrev pub complex_verbs : List Text
complex_verbs =
    codes "refactor"
    ∷ codes "migrate"
    ∷ codes "implement"
    ∷ codes "build"
    ∷ codes "create"
    ∷ codes "rewrite"
    ∷ codes "redesign"
    ∷ codes "architect"
    ∷ codes "integrate"
    ∷ codes "upgrade"
    ∷ codes "convert"
    ∷ codes "extract"
    ∷ codes "restructure"
    ∷ codes "overhaul"
    ∷ codes "deploy"
    ∷ codes "automate"
    ∷ []

-- two words with white space between them
unfoldable pub two_words : Text → Text → Regex
two_words a b = cat (lit_i a ∷ plus space ∷ lit_i b ∷ [])

-- `_MULTI_STEP_RE`
unfoldable pub multi_step : Regex
multi_step = cat (
    bound
    ∷ alt (lit_i (codes "then")) (
        alt (lit_i (codes "also")) (
          alt (lit_i (codes "additionally")) (
            alt (two_words (codes "after") (codes "that")) (
              alt (lit_i (codes "next")) (
                alt (lit_i (codes "finally")) (
                  alt (two_words (codes "and") (codes "then")) (
                    alt (two_words (codes "followed") (codes "by")) (
                      cat (
                        lit_i (codes "as")
                        ∷ plus space
                        ∷ lit_i (codes "well")
                        ∷ plus space
                        ∷ lit_i (codes "as")
                        ∷ [])))))))))
    ∷ bound
    ∷ [])

-- `words & _COMPLEX_VERBS`
unfoldable pub verb_hits : Text → List Text
verb_hits prompt = keep (λ w. member w complex_verbs) (to_set (find_words (lower prompt)))

-- `_estimate_complexity`
unfoldable pub estimate_complexity : Text → Bool
estimate_complexity prompt =
    let hits = length (verb_hits prompt) in
    not (ltb (length prompt) 80) && ((ltb 0 hits && re_search multi_step prompt) || leb 2 hits)

-- `best_name`, `best_score` and `best_reason`
pub record Classified : Type 0 where
  pub agent_name : Text
  pub score : Fraction
  pub reason : Text

abbrev pub unmatched : Classified
unmatched = record {
  agent_name = codes "polymorphic-agent";
  score = record { num = 0; den = 1 };
  reason = codes "No agent matched";
}

-- an agent with a name, at the floor or above, and better than the best one so far
unfoldable pub better : Classified → Text → Best → Classified
better best name found =
    if not (is_empty name) && (reaches found.score hard_floor && exceeds found.score best.score)
    then record { agent_name = name; score = found.score; reason = found.reason }
    else best

module _ (ratio : Text → Text → Fraction) (percent : Fraction → Text) where
  -- the loop over the agents
  unfoldable pub classify_from : Text → List Text → Classified → List NamedAgent → Classified
  classify_from prompt_lower prompt_words best [] = best
  classify_from prompt_lower prompt_words best ((name, agent) ∷ agents) =
      classify_from prompt_lower prompt_words
        (better best name (score_agent ratio percent prompt_lower prompt_words agent)) agents

  -- `classify_prompt`
  unfoldable pub classify_prompt : Text → List NamedAgent → Classified
  classify_prompt prompt agents =
      if is_empty prompt
      then unmatched
      else classify_from (lower prompt) (prompt_keyword_set prompt) unmatched agents
