-- ===== src/Agents/Routing.antt =====
-- Which agent a prompt is routed to.
use omnicursor.Prelude.{
  ℕ, ◌*◌, ◌≤◌, ◌<◌, ◌≡◌, refl, ap, ◌∙◌, sym, true, false, false≢true, not, if◌then◌else◌, ◌++◌,
  Perm, leb→le, take, keep-Left, sort_by-keep-perm, List, [], ◌∷◌, get_or, keep, All-keep,
  keep-Keeps, map, All, All-Has, All-map, Has, Has-keep, Has-map, sort_by, sort_by-All, sort_by-Has,
  sort_by-Ordered, Ordered, arith, inl, inr, and-eq-true,
}
use omnicursor.Text.{Text, same, is_empty, lower, replace_char, strip, lstrip, rstrip}
use omnicursor.Text.Token.{name_token, alias_of, settles, alias-settled}
use omnicursor.Keywords.{extract_keywords}
use omnicursor.Selection.{to_set}
use omnicursor.Scoring.{Fraction, reaches, hard_floor, exact_score, Agent}
use omnicursor.Scoring.Bounds.{Proper, reaches-total, reaches_trans, score_agent-Proper}
use omnicursor.Scoring.Triggers.{Stands, score_agent-exact}
use omnicursor.Agents.Contexts.{default_context, aliases}
use omnicursor.Agents.{
  Registry, Candidate, not_below, candidate_of, qualifies, match_agent_candidates, match_agent,
  find_context, normalize_category,
}

aliases_settled : settles aliases aliases ≡ true
unfolding alias_of name_token same replace_char lower strip lstrip rstrip
aliases_settled = refl

-- Every category comes to one that comes to itself.
pub normalize_category-idempotent :
    (s : Text) → normalize_category (normalize_category s) ≡ normalize_category s
unfolding normalize_category
normalize_category-idempotent s = alias-settled aliases s aliases_settled

floor_reached : reaches exact_score hard_floor ≡ true
unfolding reaches
floor_reached = refl

module _ (ratio : Text → Text → Fraction) (percent : Fraction → Text) (registry : Registry)
    (prompt : Text) where
  -- the candidate of an agent for this prompt
  abbrev pub rated : Agent → Candidate
  rated agent = candidate_of ratio percent (lower prompt) (to_set (extract_keywords prompt)) agent

  -- The candidate is that of an agent of the pool.
  abbrev pub Pooled : Candidate → Type 0
  Pooled c = (agent : Agent) × Has agent registry.pool × (rated agent ≡ c)

  abbrev pub Strong : Candidate → Type 0
  Strong c = (is_empty c.category ≡ false) × (reaches c.score hard_floor ≡ true)

  -- It has a category and scores at least 0.55.
  pub Fit : Candidate → Type 0
  Fit c = (is_empty c.category ≡ false) × (55 * c.score.den ≤ 100 * c.score.num)

  -- Each candidate scores as much as any that follows it, the scores as fractions.
  pub BestFirst : List Candidate → Type 0
  BestFirst [] = Unit
  BestFirst (c ∷ cs) =
      All (λ (d : Candidate). d.score.num * c.score.den ≤ c.score.num * d.score.den) cs
      × BestFirst cs

  -- The first candidates of those that fit, by descending score; no candidate for an empty prompt.
  pub record Ranked (max_results : ℕ) (cs : List Candidate) : Type 0 where
    pub fitting : List Candidate
    pub others : List Candidate
    pub whole : Perm (fitting ++ others) (map rated registry.pool)
    pub fit : All Fit fitting
    pub unfit : All (λ c. ¬ Fit c) others
    pub best_first : BestFirst fitting
    pub cut : cs ≡ (if is_empty prompt then [] else take max_results fitting)

  Ordered-BestFirst : (cs : List Candidate) → Ordered not_below cs → BestFirst cs
  unfolding BestFirst not_below reaches
  Ordered-BestFirst [] o = tt
  Ordered-BestFirst (c ∷ cs) (h, o) =
      (All-map _ _ (λ d e. leb→le _ _ e) cs h, Ordered-BestFirst cs o)

  Pooled-map :
      (agents : List Agent)
      → ((a : Agent) → Has a agents → Has a registry.pool)
      → All Pooled (map rated agents)
  Pooled-map [] h = tt
  Pooled-map (a ∷ as_left) h = ((a, h a (inl refl), refl), Pooled-map as_left (λ b k. h b (inr k)))

  Strong-qualifies : (c : Candidate) → qualifies ratio percent c ≡ true → Strong c
  Strong-qualifies c h =
      let (filled, high) = and-eq-true (not (is_empty c.category)) _ h in
      (ground (arith, filled), high)

  qualifies-Strong : (c : Candidate) → Strong c → qualifies ratio percent c ≡ true
  qualifies-Strong c (filled, high) = rw (filled, high) refl

  Fit-qualifies : (c : Candidate) → qualifies ratio percent c ≡ true → Fit c
  unfolding Fit reaches
  Fit-qualifies c h = let (filled, high) = Strong-qualifies c h in (filled, ground (arith, high))

  unfit-disqualified : (c : Candidate) → qualifies ratio percent c ≡ false → ¬ Fit c
  unfolding Fit
  unfit-disqualified c h (filled, high) =
      false≢true (sym h ∙ qualifies-Strong c (filled, unfold reaches in ground (arith, high)))

  abbrev qualified : List Candidate
  qualified = keep (qualifies ratio percent) (map rated registry.pool)

  abbrev Positive : Candidate → Type 0
  Positive c = 0 < c.score.den

module _ (ratio : Text → Text → Fraction) (percent : Fraction → Text)
    (ratio-Proper : (s t : Text) → Proper (ratio s t)) (registry : Registry) (prompt : Text) where
  Positive-map :
      (agents : List Agent)
      → All
          (Positive ratio percent registry prompt)
          (map (rated ratio percent registry prompt) agents)
  Positive-map [] = tt
  Positive-map (a ∷ as_left) =
      let p =
        score_agent-Proper ratio percent ratio-Proper (lower prompt)
          (to_set (extract_keywords prompt)) a in
      (p.positive, Positive-map as_left)

  abbrev best_first : List Candidate
  best_first = sort_by not_below (qualified ratio percent registry prompt)

  best_first-Ordered : Ordered not_below best_first
  unfolding not_below
  best_first-Ordered =
      sort_by-Ordered not_below (Positive ratio percent registry prompt)
        (λ c d. reaches-total c.score d.score) (λ c d e. reaches_trans c.score d.score e.score)
        (qualified ratio percent registry prompt)
        (keep-Keeps (qualifies ratio percent) (Positive ratio percent registry prompt) _
          (Positive-map registry.pool))

  -- The candidates for a prompt are the first ones, as many as asked for, of those with a category and
  -- a score of at least 0.55, all that the agents of the pool give taken and sorted by descending
  -- score; for an empty prompt there is none.
  pub match_agent_candidates-Ranked :
      (max_results : ℕ)
      → Ranked ratio percent registry prompt max_results
          (match_agent_candidates ratio percent registry prompt max_results)
  unfolding match_agent_candidates
  match_agent_candidates-Ranked max_results =
      let all_rated = map (rated ratio percent registry prompt) registry.pool in
      record {
        fitting = best_first;
        others = keep (λ c. not (qualifies ratio percent c)) all_rated;
        whole = sort_by-keep-perm (qualifies ratio percent) not_below all_rated;
        fit = sort_by-All not_below (Fit ratio percent registry prompt) _ (
            All-map _ _ (Fit-qualifies ratio percent registry prompt) _
              (All-keep (qualifies ratio percent) all_rated));
        unfit =
            All-map _ _ (unfit-disqualified ratio percent registry prompt) _
              (keep-Left (qualifies ratio percent) all_rated);
        best_first = Ordered-BestFirst ratio percent registry prompt best_first best_first-Ordered;
        cut = refl;
      }

  -- The agent that is matched, and another of the pool.
  pub record Winner (agent : Agent) : Type 0 where
    pub best : Candidate
    pub pooled : Pooled ratio percent registry prompt best
    pub chosen :
        match_agent ratio percent registry prompt
        ≡ get_or (find_context best.category registry.merged) default_context
    pub unbeaten : reaches best.score (rated ratio percent registry prompt agent).score ≡ true

  first_of :
      (cs : List Candidate) (c : Candidate)
      → Has c cs
      → Ordered not_below cs
      → All (Pooled ratio percent registry prompt) cs
      → (best : Candidate) × (rest : List Candidate) × (cs ≡ best ∷ rest)
        × Pooled ratio percent registry prompt best
        × (not_below best c ≡ true)
  unfolding not_below reaches
  first_of [] c has o p = absurd has
  first_of (b ∷ bs) c (inl e) o (p, ps) = (b, bs, refl, p, ap (not_below b) (sym e) ∙ ground arith)
  first_of (b ∷ bs) c (inr has) (o, os) (p, ps) =
      (b, bs, refl, p, All-Has (λ d. not_below b d ≡ true) c bs o has)

  -- No agent of the pool that has a category and scores at least 0.55 beats the one that is matched,
  -- which is of the pool itself.
  pub match_agent-Winner :
      (agent : Agent)
      → is_empty prompt ≡ false
      → Has agent registry.pool
      → Strong ratio percent registry prompt (rated ratio percent registry prompt agent)
      → Winner agent
  unfolding match_agent match_agent_candidates
  match_agent-Winner agent filled has strong =
      let c = rated ratio percent registry prompt agent in
      let there =
        Has-keep (qualifies ratio percent) c
          (map (rated ratio percent registry prompt) registry.pool)
          (qualifies-Strong ratio percent registry prompt c strong)
          (Has-map (rated ratio percent registry prompt) agent registry.pool has) in
      let (best, rest, e, pooled, unbeaten) =
        first_of best_first c (sort_by-Has not_below c _ there) best_first-Ordered (
          sort_by-All not_below (Pooled ratio percent registry prompt) _ (
            keep-Keeps (qualifies ratio percent) (Pooled ratio percent registry prompt) _
              (Pooled-map ratio percent registry prompt registry.pool (λ a h. h)))) in
      record {
        best = best;
        pooled = pooled;
        chosen = rw (filled, e) refl;
        unbeaten = unfold not_below in unbeaten;
      }

  -- Where an explicit trigger of an agent of the pool, which has a category, stands in the prompt,
  -- the agent that is matched is of the pool, is not beaten by that one, and scores at least 0.95.
  pub match_agent-exact :
      (agent : Agent)
      → is_empty prompt ≡ false
      → Has agent registry.pool
      → is_empty agent.category ≡ false
      → Stands (lower prompt) agent.explicit_triggers
      → (w : Winner agent) × (reaches w.best.score exact_score ≡ true)
  match_agent-exact agent filled has named stands =
      let e =
        score_agent-exact ratio percent (lower prompt) (to_set (extract_keywords prompt)) agent
          stands in
      let strong : Strong ratio percent registry prompt
          (rated ratio percent registry prompt agent) =
        (named, ap (λ s. reaches s hard_floor) e ∙ floor_reached) in
      let w = match_agent-Winner agent filled has strong in
      (w, ap (reaches w.best.score) (sym e) ∙ w.unbeaten)
