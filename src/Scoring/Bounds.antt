-- ===== src/Scoring/Bounds.antt =====
-- The order of scores, their bounds, and what a trigger in the prompt comes to.
use native.Mathlib.Nat.{mul-le-mul_right, mul-lt-mul_of_pos_right}
use omnicursor.Prelude.{
  ℕ, ◌+◌, ◌*◌, ◌≤◌, ◌<◌, ◌≡◌, refl, Bool, true, false, ◌&&◌, List, [], ◌∷◌, leb, arith, Bool-cases,
  inl, inr, length, and-eq-true, keep,
}
use omnicursor.Text.{Text}
use omnicursor.Text.Order.{sorted, insert_text}
use omnicursor.Keywords.{member}
use omnicursor.Scoring.{
  Fraction, exceeds, reaches, Agent, Best, no_match, improve, trigger_pass, exact_score,
  context_score, overlap, scaled, keyword_match, keyword_pass, fuzzy_words, fuzzy_triggers,
  fuzzy_pass, verbatim_pass, score_agent,
}

-- A number from 0 to 1.
pub record Proper (a : Fraction) : Type 0 where
  pub positive : 0 < a.den
  pub at_most_one : a.num ≤ a.den

pub reaches-total : (a b : Fraction) → reaches a b ≡ false → reaches b a ≡ true
unfolding reaches
reaches-total a b h = ground (arith, h)

pub reaches_trans :
    (a b c : Fraction) → 0 < b.den → reaches a b ≡ true → reaches b c ≡ true → reaches a c ≡ true
unfolding reaches
reaches_trans a b c pos h k =
    let ab : b.num * a.den ≤ a.num * b.den = ground (arith, h) in
    let bc : c.num * b.den ≤ b.num * c.den = ground (arith, k) in
    let ab2 = mul-le-mul_right c.den ab in
    let bc2 = mul-le-mul_right a.den bc in
    elim (Bool-cases (leb (c.num * a.den) (a.num * c.den))) [
      | inl e ↦ e
      | inr e ↦
          let lt : a.num * c.den < c.num * a.den = ground (arith, e) in
          let lt2 = mul-lt-mul_of_pos_right lt pos in absurd (omega (arith, ab2, bc2, lt2))
    ]

pub improve-Proper :
    (best : Best) (applies : Bool) (score : Fraction) (reason : Text)
    → Proper best.score
    → (applies ≡ true → Proper score)
    → Proper (improve best applies score reason).score
unfolding improve
improve-Proper best applies score reason h k =
    elim (Bool-cases (applies && exceeds score best.score)) [
      | inl e ↦ rw e (k (and-eq-true _ _ e).0)
      | inr e ↦ rw e h
    ]

trigger_pass-Proper :
    (score : Fraction) (label prompt : Text) (triggers : List Text) (best : Best)
    → Proper score
    → Proper best.score
    → Proper (trigger_pass score label prompt best triggers).score
unfolding trigger_pass
trigger_pass-Proper score label prompt [] best s h = h
trigger_pass-Proper score label prompt (t ∷ ts) best s h =
    trigger_pass-Proper score label prompt ts _ s (improve-Proper best _ score _ h (λ e. s))

length-insert_text : (s : Text) (ts : List Text) → length (insert_text s ts) ≡ length ts + 1
unfolding insert_text
length-insert_text s [] = refl
length-insert_text s (t ∷ ts) = ground (arith, length-insert_text s ts)

length-sorted : (ts : List Text) → length (sorted ts) ≡ length ts
unfolding sorted
length-sorted [] = refl
length-sorted (t ∷ ts) = omega (arith, length-insert_text t (sorted ts), length-sorted ts)

length-keep-le : (p : Text → Bool) (ts : List Text) → length (keep p ts) ≤ length ts
length-keep-le p [] = omega arith
length-keep-le p (t ∷ ts) = ground (arith, length-keep-le p ts)

length-overlap-le : (ws keywords : List Text) → length (overlap ws keywords) ≤ length keywords
unfolding overlap
length-overlap-le ws keywords = omega (
  arith,
  length-sorted (keep (λ w. member w ws) keywords),
  length-keep-le (λ w. member w ws) keywords,
)

scaled-Proper : (n m : ℕ) → n ≤ m → leb 2 n ≡ true → Proper (scaled n m)
unfolding scaled
scaled-Proper n m le h =
    let two : 2 ≤ n = ground (arith, h) in
    record { positive = omega (arith, two, le); at_most_one = omega (arith, two, le) }

keyword_pass-Proper :
    (ws : List Text) (agent : Agent) (best : Best)
    → Proper best.score
    → Proper (keyword_pass ws agent best).score
unfolding keyword_pass keyword_match
keyword_pass-Proper ws agent best h =
    elim (Bool-cases (exceeds (record { num = 70; den = 100 }) best.score)) [
      | inl e ↦ rw e (improve-Proper best _ _ _ h (scaled-Proper _ _ (length-overlap-le ws _)))
      | inr e ↦ rw e h
    ]

pub proper-constant : (n : ℕ) → n ≤ 100 → Proper (record { num = n; den = 100 })
proper-constant n le = record { positive = omega arith; at_most_one = le }

pub verbatim_pass-Proper :
    (prompt : Text) (agent : Agent) → Proper (verbatim_pass prompt agent).score
unfolding verbatim_pass
verbatim_pass-Proper prompt agent =
    trigger_pass-Proper context_score _ prompt agent.context_triggers _
      (proper-constant 80 (omega arith))
      (trigger_pass-Proper exact_score _ prompt agent.explicit_triggers no_match
        (proper-constant 95 (omega arith))
        (record { positive = omega arith; at_most_one = omega arith }))

module _ (ratio : Text → Text → Fraction) (percent : Fraction → Text)
    (ratio-Proper : (s t : Text) → Proper (ratio s t)) where
  fuzzy_words-Proper :
      (trigger : Text) (words : List Text) (best : Best)
      → Proper best.score
      → Proper (fuzzy_words ratio percent trigger best words).score
  unfolding fuzzy_words
  fuzzy_words-Proper trigger [] best h = h
  fuzzy_words-Proper trigger (w ∷ ws) best h =
      fuzzy_words-Proper trigger ws _ (improve-Proper best _ _ _ h (λ e. ratio-Proper _ w))

  fuzzy_triggers-Proper :
      (words triggers : List Text) (best : Best)
      → Proper best.score
      → Proper (fuzzy_triggers ratio percent words best triggers).score
  unfolding fuzzy_triggers
  fuzzy_triggers-Proper words [] best h = h
  fuzzy_triggers-Proper words (t ∷ ts) best h =
      fuzzy_triggers-Proper words ts _ (fuzzy_words-Proper t words best h)

  fuzzy_pass-Proper :
      (prompt : Text) (agent : Agent) (best : Best)
      → Proper best.score
      → Proper (fuzzy_pass ratio percent prompt agent best).score
  unfolding fuzzy_pass
  fuzzy_pass-Proper prompt agent best h =
      elim (Bool-cases (exceeds (record { num = 90; den = 100 }) best.score)) [
        | inl e ↦ rw e (fuzzy_triggers-Proper _ agent.explicit_triggers best h)
        | inr e ↦ rw e h
      ]

  -- Every score is from 0 to 1, as the ratios of the sequence matcher are.
  pub score_agent-Proper :
      (prompt_lower : Text) (prompt_words : List Text) (agent : Agent)
      → Proper (score_agent ratio percent prompt_lower prompt_words agent).score
  unfolding score_agent
  score_agent-Proper prompt_lower prompt_words agent =
      keyword_pass-Proper prompt_words agent _
        (fuzzy_pass-Proper prompt_lower agent _ (verbatim_pass-Proper prompt_lower agent))
