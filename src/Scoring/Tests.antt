-- ===== src/Scoring/Tests.antt =====
-- The theorems about scoring.py, at inputs.
use omnicursor.Prelude.{◌≡◌, refl, [], ◌∷◌, arith}
use omnicursor.Text.{Text, codes, contains, lower, starts_with}
use omnicursor.Scoring.{Fraction, reaches, Agent, exact_score, context_score, score_agent}
use omnicursor.Scoring.Bounds.{Proper}
use omnicursor.Scoring.Triggers.{Scored, score_agent_lem}

abbrev half : Text → Text → Fraction
half s t = record { num = 1; den = 2 }

abbrev half-Proper : (s t : Text) → Proper (half s t)
half-Proper s t = record { positive = omega arith; at_most_one = omega arith }

abbrev debugger : Agent
debugger = record {
  category = codes "debugging";
  explicit_triggers = codes "Debug" ∷ [];
  context_triggers = codes "why" ∷ [];
  activation_keywords = [];
}

score_agent_lem_example :
    Scored half
      (λ r. [])
      half-Proper
      (codes "debug it")
      debugger
      (score_agent half (λ r. []) (codes "debug it") [] debugger).score
score_agent_lem_example = score_agent_lem half (λ r. []) half-Proper (codes "debug it") [] debugger

-- a trigger counts in any case, at any place, and no keyword adds to it
run_score : Text → Fraction
unfolding score_agent omnicursor.Scoring.verbatim_pass omnicursor.Scoring.trigger_pass
    omnicursor.Scoring.improve omnicursor.Scoring.exceeds omnicursor.Scoring.fuzzy_pass
    omnicursor.Scoring.keyword_pass contains lower starts_with
run_score prompt = (score_agent half (λ r. []) prompt [] debugger).score

scores_exact : run_score (codes "please debug it") ≡ exact_score
unfolding run_score
scores_exact = refl
