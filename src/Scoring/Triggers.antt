-- ===== src/Scoring/Triggers.antt =====
-- What a trigger that stands in the prompt comes to.
use omnicursor.Prelude.{
  ◌*◌, ◌≤◌, ◌≡◌, refl, ap, ◌∙◌, sym, subst, Bool, true, false, ◌&&◌, List, [], ◌∷◌, arith,
  Bool-cases, inl, inr, Has, any,
}
use omnicursor.Text.{Text, codes, lower, contains}
use omnicursor.Scoring.{
  Fraction, exceeds, reaches, Agent, Best, no_match, improve, trigger_pass, exact_score,
  context_score, keyword_pass, fuzzy_words, fuzzy_triggers, fuzzy_pass, verbatim_pass, score_agent,
}
use omnicursor.Scoring.Bounds.{
  Proper, reaches_trans, improve-Proper, verbatim_pass-Proper, score_agent-Proper,
}

-- a score that the best one reaches changes nothing
trigger_pass-stays :
    (score : Fraction) (label prompt : Text) (best : Best) (triggers : List Text)
    → exceeds score best.score ≡ false
    → trigger_pass score label prompt best triggers ≡ best
unfolding trigger_pass improve
trigger_pass-stays score label prompt best [] h = refl
trigger_pass-stays score label prompt best (t ∷ ts) h =
    elim (Bool-cases (contains prompt (lower t))) [
      | inl e ↦ rw (e, h) (trigger_pass-stays score label prompt best ts h)
      | inr e ↦ rw e (trigger_pass-stays score label prompt best ts h)
    ]

improve-better :
    (best : Best) (applies : Bool) (score : Fraction) (reason : Text)
    → applies ≡ true
    → exceeds score best.score ≡ true
    → improve best applies score reason ≡ record { score = score; reason = reason }
unfolding improve
improve-better best applies score reason e h = rw (e, h) refl

improve-not :
    (best : Best) (applies : Bool) (score : Fraction) (reason : Text)
    → applies ≡ false
    → improve best applies score reason ≡ best
unfolding improve
improve-not best applies score reason e = rw e refl

trigger_pass-found :
    (score : Fraction) (label prompt : Text) (best : Best) (triggers : List Text) (trigger : Text)
    → exceeds score score ≡ false
    → exceeds score best.score ≡ true
    → Has trigger triggers
    → contains prompt (lower trigger) ≡ true
    → (trigger_pass score label prompt best triggers).score ≡ score
unfolding trigger_pass
trigger_pass-found score label prompt best [] trigger self h has c = absurd has
trigger_pass-found score label prompt best (t ∷ ts) trigger self h has c =
    elim (Bool-cases (contains prompt (lower t))) [
      | inl e ↦
          ap (λ (b : Best). (trigger_pass score label prompt b ts).score)
            (improve-better best _ score _ e h)
          ∙ ap (λ (b : Best). b.score) (trigger_pass-stays score label prompt _ ts self)
      | inr e ↦
          ap (λ (b : Best). (trigger_pass score label prompt b ts).score)
            (improve-not best _ score _ e)
          ∙ elim has [
            | inl k ↦ absurd (cc (ap (λ s. contains prompt (lower s)) k, e, c))
            | inr more ↦ trigger_pass-found score label prompt best ts trigger self h more c
          ]
    ]

trigger_pass-missed :
    (score : Fraction) (label prompt : Text) (best : Best) (triggers : List Text)
    → any (λ t. contains prompt (lower t)) triggers ≡ false
    → trigger_pass score label prompt best triggers ≡ best
unfolding trigger_pass improve
trigger_pass-missed score label prompt best [] h = refl
trigger_pass-missed score label prompt best (t ∷ ts) h =
    elim (Bool-cases (contains prompt (lower t))) [
      | inl e ↦ absurd (ground (arith, e, h))
      | inr e ↦ rw e (trigger_pass-missed score label prompt best ts (ground (arith, e, h)))
    ]

-- A trigger of the agent stands in the prompt.
unfoldable pub Stands : Text → List Text → Type 0
Stands prompt triggers = (t : Text) × Has t triggers × (contains prompt (lower t) ≡ true)

verbatim_pass-exact :
    (prompt : Text) (agent : Agent)
    → Stands prompt agent.explicit_triggers
    → (verbatim_pass prompt agent).score ≡ exact_score
unfolding verbatim_pass Stands exceeds
verbatim_pass-exact prompt agent (t, has, c) =
    let found =
      trigger_pass-found exact_score (codes "Exact trigger: '") prompt no_match
        agent.explicit_triggers t refl refl has c in
    let kept =
      trigger_pass-stays context_score (codes "Context trigger: '") prompt _ agent.context_triggers
        (ap (λ s. exceeds context_score s) found) in
    ap (λ (b : Best). b.score) kept ∙ found

verbatim_pass-context :
    (prompt : Text) (agent : Agent)
    → any (λ t. contains prompt (lower t)) agent.explicit_triggers ≡ false
    → Stands prompt agent.context_triggers
    → (verbatim_pass prompt agent).score ≡ context_score
unfolding verbatim_pass Stands exceeds
verbatim_pass-context prompt agent none_stands (t, has, c) =
    rw
      (trigger_pass-missed exact_score (codes "Exact trigger: '") prompt no_match
        agent.explicit_triggers none_stands)
      (trigger_pass-found context_score (codes "Context trigger: '") prompt no_match
        agent.context_triggers t refl refl has c)

keyword_pass-high :
    (ws : List Text) (agent : Agent) (best : Best)
    → exceeds (record { num = 70; den = 100 }) best.score ≡ false
    → keyword_pass ws agent best ≡ best
unfolding keyword_pass
keyword_pass-high ws agent best e = rw e refl

-- at least 0.80
abbrev Contextual : Fraction → Type 0
Contextual a = 80 * a.den ≤ 100 * a.num

improve-Contextual :
    (best : Best) (applies : Bool) (score : Fraction) (reason : Text)
    → Proper best.score
    → Contextual best.score
    → Contextual (improve best applies score reason).score
unfolding improve exceeds
improve-Contextual best applies score reason p h =
    elim (Bool-cases (applies && exceeds score best.score)) [
      | inl e ↦
          let better : reaches score best.score ≡ true = unfold reaches in ground (arith, e) in
          let least : reaches best.score context_score ≡ true =
            unfold reaches in ground (arith, h) in
          let all_along = reaches_trans score best.score context_score p.positive better least in
          rw e (unfold reaches in ground (arith, all_along))
      | inr e ↦ rw e h
    ]

module _ (ratio : Text → Text → Fraction) (percent : Fraction → Text) where
  fuzzy_pass-high :
      (prompt : Text) (agent : Agent) (best : Best)
      → exceeds (record { num = 90; den = 100 }) best.score ≡ false
      → fuzzy_pass ratio percent prompt agent best ≡ best
  unfolding fuzzy_pass
  fuzzy_pass-high prompt agent best e = rw e refl

  -- An agent one of whose explicit triggers stands in the prompt scores exactly 0.95.
  pub score_agent-exact :
      (prompt_lower : Text) (prompt_words : List Text) (agent : Agent)
      → Stands prompt_lower agent.explicit_triggers
      → (score_agent ratio percent prompt_lower prompt_words agent).score ≡ exact_score
  unfolding score_agent exceeds
  score_agent-exact prompt_lower prompt_words agent h =
      let e = verbatim_pass-exact prompt_lower agent h in
      let f =
        fuzzy_pass-high prompt_lower agent _ (ap (exceeds (record { num = 90; den = 100 })) e) in
      let k =
        keyword_pass-high prompt_words agent _ (ap (exceeds (record { num = 70; den = 100 })) e) in
      ap (λ (b : Best). b.score) (ap (keyword_pass prompt_words agent) f ∙ k) ∙ e

Stands-any :
    (prompt : Text) (triggers : List Text)
    → any (λ t. contains prompt (lower t)) triggers ≡ true
    → Stands prompt triggers
unfolding Stands
Stands-any prompt [] h = absurd (cc (h))
Stands-any prompt (t ∷ ts) h = elim (Bool-cases (contains prompt (lower t))) [
  | inl e ↦ (t, inl refl, e)
  | inr e ↦ let (s, has, c) = Stands-any prompt ts (ground (arith, e, h)) in (s, inr has, c)
]

-- a score at least 0.80, that a comparison can rely on
abbrev High : Best → Type 0
High best = Proper best.score × Contextual best.score

module _ (ratio : Text → Text → Fraction) (percent : Fraction → Text)
    (ratio-Proper : (s t : Text) → Proper (ratio s t)) where
  fuzzy_words-High :
      (trigger : Text) (words : List Text) (best : Best)
      → High best
      → High (fuzzy_words ratio percent trigger best words)
  unfolding fuzzy_words
  fuzzy_words-High trigger [] best h = h
  fuzzy_words-High trigger (w ∷ ws) best (p, h) =
      fuzzy_words-High trigger ws _
        (improve-Proper best _ _ _ p (λ e. ratio-Proper _ w), improve-Contextual best _ _ _ p h)

  fuzzy_triggers-High :
      (words triggers : List Text) (best : Best)
      → High best
      → High (fuzzy_triggers ratio percent words best triggers)
  unfolding fuzzy_triggers
  fuzzy_triggers-High words [] best h = h
  fuzzy_triggers-High words (t ∷ ts) best h =
      fuzzy_triggers-High words ts _ (fuzzy_words-High t words best h)

  fuzzy_pass-High :
      (prompt : Text) (agent : Agent) (best : Best)
      → High best
      → High (fuzzy_pass ratio percent prompt agent best)
  unfolding fuzzy_pass
  fuzzy_pass-High prompt agent best h =
      elim (Bool-cases (exceeds (record { num = 90; den = 100 }) best.score)) [
        | inl e ↦ rw e (fuzzy_triggers-High _ agent.explicit_triggers best h)
        | inr e ↦ rw e h
      ]

  verbatim_pass-High :
      (prompt : Text) (agent : Agent)
      → Stands prompt agent.context_triggers
      → High (verbatim_pass prompt agent)
  verbatim_pass-High prompt agent h =
      let p = verbatim_pass-Proper prompt agent in
      elim (Bool-cases (any (λ t. contains prompt (lower t)) agent.explicit_triggers)) [
        | inl e ↦ (
          p,
          subst Contextual (sym (verbatim_pass-exact prompt agent (Stands-any prompt _ e)))
              (omega arith),
        )
        | inr e ↦ (p, subst Contextual (sym (verbatim_pass-context prompt agent e h)) (omega arith))
      ]

  -- An agent one of whose context triggers stands in the prompt scores at least 0.80.
  pub score_agent-context :
      (prompt_lower : Text) (prompt_words : List Text) (agent : Agent)
      → Stands prompt_lower agent.context_triggers
      → reaches (score_agent ratio percent prompt_lower prompt_words agent).score context_score
        ≡ true
  unfolding score_agent reaches exceeds
  score_agent-context prompt_lower prompt_words agent h =
      let best = fuzzy_pass ratio percent prompt_lower agent (verbatim_pass prompt_lower agent) in
      let (p, high) =
        fuzzy_pass-High prompt_lower agent (verbatim_pass prompt_lower agent)
          (verbatim_pass-High prompt_lower agent h) in
      let k = keyword_pass-high prompt_words agent best (ground (arith, high)) in
      ap (λ (b : Best). reaches b.score context_score) k ∙ ground (arith, high)

  -- What the scores of an agent keep to.
  pub record Scored (prompt_lower : Text) (agent : Agent) (score : Fraction) : Type 0 where
    pub proper : Proper score
    pub exact : Stands prompt_lower agent.explicit_triggers → score ≡ exact_score
    pub context : Stands prompt_lower agent.context_triggers → reaches score context_score ≡ true

  -- Every score is from 0 to 1, as the ratios of the sequence matcher are. An agent one of whose
  -- explicit triggers stands in the prompt, in lower case, scores exactly 0.95; one of whose context
  -- triggers stands there scores at least 0.80.
  pub score_agent_lem :
      (prompt_lower : Text) (prompt_words : List Text) (agent : Agent)
      → Scored prompt_lower agent (score_agent ratio percent prompt_lower prompt_words agent).score
  score_agent_lem prompt_lower prompt_words agent = record {
    proper = score_agent-Proper ratio percent ratio-Proper prompt_lower prompt_words agent;
    exact = score_agent-exact ratio percent prompt_lower prompt_words agent;
    context = score_agent-context prompt_lower prompt_words agent;
  }
