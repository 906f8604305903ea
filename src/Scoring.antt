-- ===== src/Scoring.antt =====
-- src/omnicursor/scoring.py: how well an agent fits a prompt. A score is an exact fraction. `ratio` is
-- that of difflib's SequenceMatcher, and `percent` the format of a ratio in a reason.
pub mod Bounds
pub mod Triggers
mod Tests
use omnicursor.Prelude.{
  ℕ, ◌+◌, ◌*◌, Bool, true, false, not, ◌&&◌, List, [], ◌∷◌, ◌++◌, leb, ltb, if◌then◌else◌, keep,
  map, length,
}
use omnicursor.Text.{Text, codes, is_empty, lower, contains, find_words, join}
use omnicursor.Text.Split.{split_words}
use omnicursor.Text.Order.{sorted}
use omnicursor.Keywords.{member, is_keyword, stopwords}
use omnicursor.Selection.{to_set}

pub record Fraction : Type 0 where
  pub num : ℕ
  pub den : ℕ

-- `a > b`
unfoldable pub exceeds : Fraction → Fraction → Bool
exceeds a b = ltb (b.num * a.den) (a.num * b.den)

-- `a >= b`
unfoldable pub reaches : Fraction → Fraction → Bool
reaches a b = leb (b.num * a.den) (a.num * b.den)

abbrev pub hard_floor : Fraction
hard_floor = record { num = 55; den = 100 }

-- `fuzzy_threshold`
unfoldable pub fuzzy_threshold : Text → Fraction
fuzzy_threshold trigger =
    if leb (length trigger) 6
    then record { num = 85; den = 100 }
    else if leb (length trigger) 10
    then record { num = 78; den = 100 }
    else record { num = 72; den = 100 }

-- The "category" and the "activation_patterns" of an agent; what is not there is empty.
pub record Agent : Type 0 where
  pub category : Text
  pub explicit_triggers : List Text
  pub context_triggers : List Text
  pub activation_keywords : List Text

-- `best_score` and `best_reason`
pub record Best : Type 0 where
  pub score : Fraction
  pub reason : Text

abbrev pub no_match : Best
no_match = record { score = record { num = 0; den = 1 }; reason = [] }

-- takes a better score
unfoldable pub improve : Best → Bool → Fraction → Text → Best
improve best applies score reason =
    if applies && exceeds score best.score then record { score = score; reason = reason } else best

-- a loop over triggers that stand in the prompt
unfoldable pub trigger_pass : Fraction → Text → Text → Best → List Text → Best
trigger_pass score label prompt best [] = best
trigger_pass score label prompt best (trigger ∷ triggers) =
    trigger_pass score label prompt
      (improve best (contains prompt (lower trigger)) score (label ++ (trigger ++ codes "'")))
      triggers

abbrev pub exact_score : Fraction
exact_score = record { num = 95; den = 100 }

abbrev pub context_score : Fraction
context_score = record { num = 80; den = 100 }

-- `overlap`, sorted
unfoldable pub overlap : List Text → List Text → List Text
overlap prompt_words keyword_set = sorted (keep (λ w. member w prompt_words) keyword_set)

abbrev pub trigger_words : List Text → List Text
trigger_words [] = []
trigger_words (t ∷ ts) = split_words (lower t) ++ trigger_words ts

-- the words of the triggers stand in for keywords that are not there
abbrev pub raw_or : List Text → List Text → List Text
raw_or [] explicit = trigger_words explicit
raw_or (k ∷ ks) explicit = k ∷ ks

-- `keywords_raw`
unfoldable pub keywords_raw : Agent → List Text
keywords_raw agent = raw_or agent.activation_keywords agent.explicit_triggers

-- `{k.lower() for k in keywords_raw if len(k) > 2} - STOPWORDS`
unfoldable pub keyword_set : List Text → List Text
keyword_set raw =
    to_set (keep (λ k. not (member k stopwords)) (map lower (keep (λ k. ltb 2 (length k)) raw)))

-- 0.55 and up to 0.30 more, for `n` of `m` keywords
unfoldable pub scaled : ℕ → ℕ → Fraction
scaled n m = record { num = 55 * m + 30 * n; den = 100 * m }

unfoldable pub keyword_match : List Text → List Text → Best → Best
keyword_match prompt_words keywords best =
    let common = overlap prompt_words keywords in
    improve best (leb 2 (length common)) (scaled (length common) (length keywords))
      (codes "Keywords: {" ++ (join (codes ", ") common ++ codes "}"))

-- the fourth strategy, where the best score is below 0.70
unfoldable pub keyword_pass : List Text → Agent → Best → Best
keyword_pass prompt_words agent best =
    if exceeds (record { num = 70; den = 100 }) best.score
    then keyword_match prompt_words (keyword_set (keywords_raw agent)) best
    else best

-- the first and the second strategy
unfoldable pub verbatim_pass : Text → Agent → Best
verbatim_pass prompt agent =
    trigger_pass context_score (codes "Context trigger: '") prompt
      (trigger_pass exact_score (codes "Exact trigger: '") prompt no_match agent.explicit_triggers)
      agent.context_triggers

module _ (ratio : Text → Text → Fraction) (percent : Fraction → Text) where
  -- the words of the prompt against one trigger
  unfoldable pub fuzzy_words : Text → Best → List Text → Best
  fuzzy_words trigger best [] = best
  fuzzy_words trigger best (word ∷ words) =
      let found = ratio (lower trigger) word in
      fuzzy_words trigger
        (improve best (reaches found (fuzzy_threshold (lower trigger))) found
          (codes "Fuzzy match: '" ++ (trigger ++ (codes "' (" ++ (percent found ++ codes ")")))))
        words

  unfoldable pub fuzzy_triggers : List Text → Best → List Text → Best
  fuzzy_triggers words best [] = best
  fuzzy_triggers words best (trigger ∷ triggers) =
      fuzzy_triggers words (fuzzy_words trigger best words) triggers

  -- the third strategy, where the best score is below 0.90
  unfoldable pub fuzzy_pass : Text → Agent → Best → Best
  fuzzy_pass prompt agent best =
      if exceeds (record { num = 90; den = 100 }) best.score
      then fuzzy_triggers (find_words prompt) best agent.explicit_triggers
      else best

  -- `score_agent`
  unfoldable pub score_agent : Text → List Text → Agent → Best
  score_agent prompt_lower prompt_words agent =
      keyword_pass prompt_words agent
        (fuzzy_pass prompt_lower agent (verbatim_pass prompt_lower agent))
