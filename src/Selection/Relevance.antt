-- ===== src/Selection/Relevance.antt =====
-- Which patterns filter_patterns_by_relevance selects.
use native.Mathlib.Nat.{mul-le-mul_right, mul-lt-mul_of_pos_right}
use omnicursor.Prelude.{
  ℕ, zero, suc, ◌*◌, ◌≤◌, ◌<◌, ◌≡◌, refl, ap, sym, ◌∙◌, ◌↔◌, Bool, true, false, not, false≢true,
  List, [], ◌∷◌, ◌++◌, ◌⊎◌, inl, inr, get_or, take, keep, length, map, Perm, leb, leb→le, All,
  All-map, All-keep, Bool-cases, arith, Ordered, sort_by, sort_by-All, sort_by-Ordered, sort_by-map,
  sort_by-keep-perm, keep-Left,
}
use omnicursor.Text.{Text, codes, same}
use omnicursor.Keywords.{member}
use omnicursor.Learned.Session.{RawPattern}
use omnicursor.Selection.{
  Score, base_of, overlap, score_words, score_pattern_relevance, is_relevant, before_score,
  sort_best, score_le, pattern_of, scored_relevant, filter_patterns_by_relevance, description_words,
}

-- The pattern is of the domain; or it is general and a quarter of the words of its description are
-- in the prompt; or all of them are.
pub Relevant : Text → List Text → RawPattern → Type 0
Relevant domain prompt_words p =
    let d = get_or p.domain (codes "general") in
    let ws = description_words (get_or p.description []) in
    (same d domain ≡ true)
    ⊎ ((same d (codes "general") ≡ true)
          × (0 < length ws)
          × (length ws ≤ 4 * overlap prompt_words ws)
        ⊎ ((0 < length ws) × (length ws ≤ overlap prompt_words ws)))

overlap-empty : (ws : List Text) → overlap [] ws ≡ 0
unfolding overlap member
overlap-empty [] = refl
overlap-empty (w ∷ ws) = overlap-empty ws

relevant_same : (vs ws : List Text) → is_relevant (score_words 10 vs ws) ≡ true
unfolding is_relevant score_words
relevant_same vs [] = refl
relevant_same [] (w ∷ ws) = refl
relevant_same (v ∷ vs) (w ∷ ws) = ground arith

relevant_general :
    (vs ws : List Text)
    → (is_relevant (score_words 6 vs ws) ≡ true)
      ↔ ((0 < length ws) × (length ws ≤ 4 * overlap vs ws))
unfolding is_relevant score_words
relevant_general vs [] = (λ h. cc (h), λ (l, h). absurd (omega (arith, l)))
relevant_general [] (w ∷ ws) =
    (λ h. cc (h), λ (l, h). absurd (omega (arith, h, l, overlap-empty (w ∷ ws))))
relevant_general (v ∷ vs) (w ∷ ws) = ground arith

relevant_other :
    (vs ws : List Text)
    → (is_relevant (score_words 3 vs ws) ≡ true) ↔ ((0 < length ws) × (length ws ≤ overlap vs ws))
unfolding is_relevant score_words
relevant_other vs [] = (λ h. cc (h), λ (l, h). absurd (omega (arith, l)))
relevant_other [] (w ∷ ws) =
    (λ h. cc (h), λ (l, h). absurd (omega (arith, h, l, overlap-empty (w ∷ ws))))
relevant_other (v ∷ vs) (w ∷ ws) = ground arith

score-Relevant :
    (p : RawPattern) (domain : Text) (prompt_words : List Text)
    → (is_relevant (score_pattern_relevance p domain prompt_words) ≡ true)
      ↔ Relevant domain prompt_words p
unfolding score_pattern_relevance base_of Relevant
score-Relevant p domain prompt_words =
    let d = get_or p.domain (codes "general") in
    let ws = description_words (get_or p.description []) in
    let (gen_there, gen_back) = relevant_general prompt_words ws in
    let (oth_there, oth_back) = relevant_other prompt_words ws in
    elim (Bool-cases (same d domain)) [
      | inl e ↦ rw e (λ _. inl refl, λ _. relevant_same prompt_words ws)
      | inr e ↦ elim (Bool-cases (same d (codes "general"))) [
        | inl g ↦
            rw (e, g)
              (
                λ h. let (l, q) = gen_there h in inr (inl (refl, l, q)),
                λ k. elim k [
                  | inl x ↦ absurd (cc (x))
                  | inr (inl (_, l, q)) ↦ gen_back (l, q)
                  | inr (inr (l, q)) ↦ gen_back (l, omega (arith, q))
                ],
              )
        | inr g ↦
            rw (e, g)
              (
                λ h. let (l, q) = oth_there h in inr (inr (l, q)),
                λ k. elim k [
                  | inl x ↦ absurd (cc (x))
                  | inr (inl (x, l, q)) ↦ absurd (cc (x))
                  | inr (inr (l, q)) ↦ oth_back (l, q)
                ],
              )
      ]
    ]

words-positive : (base : ℕ) (vs ws : List Text) → 0 < (score_words base vs ws).den
unfolding score_words
words-positive base vs [] = omega arith
words-positive base [] (w ∷ ws) = omega arith
words-positive base (v ∷ vs) (w ∷ ws) = omega arith

score-positive :
    (p : RawPattern) (domain : Text) (prompt_words : List Text)
    → 0 < (score_pattern_relevance p domain prompt_words).den
unfolding score_pattern_relevance
score-positive p domain prompt_words =
    words-positive (base_of (get_or p.domain (codes "general")) domain) prompt_words
      (description_words (get_or p.description []))

score_le-total : (s t : Score) → score_le t s ≡ false → score_le s t ≡ true
unfolding score_le
score_le-total s t h = ground (arith, h)

score_le_trans :
    (s t u : Score) → 0 < t.den → score_le t s ≡ true → score_le u t ≡ true → score_le u s ≡ true
unfolding score_le
score_le_trans s t u pos h k =
    let ts : t.num * s.den ≤ s.num * t.den = ground (arith, h) in
    let ut : u.num * t.den ≤ t.num * u.den = ground (arith, k) in
    let ts2 = mul-le-mul_right u.den ts in
    let ut2 = mul-le-mul_right s.den ut in
    elim (Bool-cases (leb (u.num * s.den) (s.num * u.den))) [
      | inl e ↦ e
      | inr e ↦
          let lt : s.num * u.den < u.num * s.den = ground (arith, e) in
          let lt2 = mul-lt-mul_of_pos_right lt pos in absurd (omega (arith, ts2, ut2, lt2))
    ]

module _ (domain : Text) (prompt_words : List Text) where
  abbrev score_of : RawPattern → Score
  score_of p = score_pattern_relevance p domain prompt_words

  abbrev with_score : RawPattern → RawPattern × Score
  with_score p = (p, score_of p)

  -- Each pattern scores as much as any that follows it, the scores as fractions.
  pub BestFirst : List RawPattern → Type 0
  BestFirst [] = Unit
  BestFirst (p ∷ ps) =
      All
        (λ q.
          (score_pattern_relevance q domain prompt_words).num
            * (score_pattern_relevance p domain prompt_words).den
          ≤ (score_pattern_relevance p domain prompt_words).num
            * (score_pattern_relevance q domain prompt_words).den)
        ps
      × BestFirst ps

  -- one pattern may stand before another
  abbrev ranks : RawPattern → RawPattern → Bool
  ranks p q = before_score (with_score p) (with_score q)

  abbrev is_fit : RawPattern → Bool
  is_fit p = is_relevant (score_of p)

  Ordered-BestFirst : (ps : List RawPattern) → Ordered ranks ps → BestFirst ps
  unfolding BestFirst before_score score_le
  Ordered-BestFirst [] o = tt
  Ordered-BestFirst (p ∷ ps) (h, o) =
      (All-map _ _ (λ q e. leb→le _ _ e) ps h, Ordered-BestFirst ps o)

  anything : (ps : List RawPattern) → All (λ p. Unit {0}) ps
  anything [] = tt
  anything (p ∷ ps) = (tt, anything ps)

  ranks-Ordered : (ps : List RawPattern) → Ordered ranks (sort_by ranks ps)
  unfolding before_score
  ranks-Ordered ps =
      sort_by-Ordered ranks (λ p. Unit {0}) (λ p q. score_le-total (score_of p) (score_of q))
        (λ p q r _.
          score_le_trans (score_of p) (score_of q) (score_of r)
            (score-positive q domain prompt_words))
        ps (anything ps)

  scored_relevant-map :
      (ps : List RawPattern)
      → scored_relevant ps domain prompt_words ≡ map with_score (keep is_fit ps)
  unfolding scored_relevant
  scored_relevant-map [] = refl
  scored_relevant-map (p ∷ ps) =
      let rest = scored_relevant-map ps in
      elim (Bool-cases (is_fit p)) [
        | inl e ↦ rw (e, keep) (ap (λ l. with_score p ∷ l) rest)
        | inr e ↦ rw (e, keep) rest
      ]

  -- a pattern gets its score and loses it again
  unscored :
      (n : ℕ) (ps : List RawPattern) → map pattern_of (take n (map with_score ps)) ≡ take n ps
  unscored zero ps = refl
  unscored (suc n) [] = refl
  unscored (suc n) (p ∷ ps) = ap (λ l. p ∷ l) (unscored n ps)

  unfit-Irrelevant : (p : RawPattern) → is_fit p ≡ false → ¬ Relevant domain prompt_words p
  unfit-Irrelevant p e r = false≢true (sym e ∙ (score-Relevant p domain prompt_words).1 r)

  -- What is selected of some patterns: the first five of the relevant ones by descending score.
  pub record Selected (patterns selected : List RawPattern) : Type 0 where
    pub relevant : List RawPattern
    pub others : List RawPattern
    pub whole : Perm (relevant ++ others) patterns
    pub fit : All (Relevant domain prompt_words) relevant
    pub unfit : All (λ p. ¬ Relevant domain prompt_words p) others
    pub best_first : BestFirst relevant
    pub cut : selected ≡ take 5 relevant

-- What is selected are the first five of the relevant patterns, all of them taken and sorted by
-- descending score. A pattern is relevant if it is of the domain; or general with a quarter of the
-- words of its description in the prompt; or all those words are in the prompt.
pub filter_patterns-Selected :
    (patterns : List RawPattern) (domain : Text) (prompt_words : List Text)
    → Selected domain prompt_words patterns
        (filter_patterns_by_relevance patterns domain prompt_words)
unfolding filter_patterns_by_relevance sort_best
filter_patterns-Selected patterns domain prompt_words =
    let fits = is_fit domain prompt_words in
    let order = ranks domain prompt_words in
    let sorted = sort_by order (keep fits patterns) in
    record {
      relevant = sorted;
      others = keep (λ p. not (fits p)) patterns;
      whole = sort_by-keep-perm fits order patterns;
      fit = sort_by-All order (Relevant domain prompt_words) (keep fits patterns) (
          All-map _ _ (λ p e. (score-Relevant p domain prompt_words).0 e) _
            (All-keep fits patterns));
      unfit = All-map _ _ (unfit-Irrelevant domain prompt_words) _ (keep-Left fits patterns);
      best_first =
          Ordered-BestFirst domain prompt_words sorted
            (ranks-Ordered domain prompt_words (keep fits patterns));
      cut =
          ap (λ l. map pattern_of (take 5 (sort_by before_score l)))
            (scored_relevant-map domain prompt_words patterns)
          ∙ (ap (λ l. map pattern_of (take 5 l))
                (sort_by-map (with_score domain prompt_words) before_score (keep fits patterns))
              ∙ unscored domain prompt_words 5 sorted);
    }
