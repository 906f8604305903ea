-- ===== src/Learned/Decay.antt =====
-- What `_decay_patterns` does to a pattern, on each of its branches.
use omnicursor.Prelude.{
  ℕ, ◌+◌, ◌-◌, ◌*◌, ◌≤◌, ◌<◌, ◌≡◌, refl, Option-cases, none, some, ltb, ltb→lt, inl, inr, get_or,
  max, Bool-cases, arith,
}
use omnicursor.Json.{Result, ok, raised, key_error}
use omnicursor.Learned.{Pattern, decay_period, decay_amount}
use omnicursor.Learned.Steps.{round_div, decayed_weight, decay_pattern}

-- `v` thousandths are what is left of `w` thousandths `late` behind the period, where a period takes
-- one hundred of them: to the nearest, or one hundred if what is left rounds to no more.
pub data Lowered (w late v : ℕ) : Type 0 where
  nearest :
      100 < v
      → 2 * (w * 2592000000000) ≤ 2 * (v * 2592000000000 + 100 * late) + 2592000000000
      → 2 * (v * 2592000000000 + 100 * late) ≤ 2 * (w * 2592000000000) + 2592000000000
      → Lowered w late v
  floored :
      v ≡ 100
      → 2 * (w * 2592000000000) ≤ 2 * (100 * 2592000000000 + 100 * late) + 2592000000000
      → Lowered w late v

module _ (now : ℕ) (p : Pattern) (answer : Result Pattern) where
  -- The answers for a pattern: unchanged within the period, an error without a weight, or a weight
  -- lowered by what is behind the period.
  pub data Decayed : Type 0 where
    fresh : now - get_or p.last_seen now ≤ 2592000000000 → answer ≡ ok p → Decayed
    weightless :
        2592000000000 < now - get_or p.last_seen now
        → p.weight ≡ none
        → answer ≡ raised key_error
        → Decayed
    lowered :
        (w v : ℕ)
        → 2592000000000 < now - get_or p.last_seen now
        → p.weight ≡ some w
        → Lowered w (now - get_or p.last_seen now - 2592000000000) v
        → answer ≡ ok (record p { weight = some v })
        → Decayed

round_div-below : (n w : ℕ) → n ≤ w * decay_period → round_div n decay_period ≤ w
unfolding round_div
round_div-below n w h = ground (arith, h)

round_div-near :
    (n : ℕ)
    → (2 * n ≤ 2 * (round_div n decay_period * 2592000000000) + 2592000000000)
      × (2 * (round_div n decay_period * 2592000000000) ≤ 2 * n + 2592000000000)
unfolding round_div
round_div-near n = ground arith

decayed_weight-Lowered : (w age : ℕ) → Lowered w (age - 2592000000000) (decayed_weight w age)
unfolding decayed_weight
decayed_weight-Lowered w age =
    let n = w * decay_period - decay_amount * (age - decay_period) in
    let (low, high) = round_div-near n in
    let v = round_div n decay_period in
    elim (Bool-cases (ltb 100 v)) [
      | inl above ↦
          let lt = ltb→lt 100 v above in
          nearest (omega (arith, lt)) (omega (arith, lt, low, high)) (omega (arith, lt, low, high))
      | inr not_above ↦
          let le : v ≤ 100 = ground (arith, not_above) in
          floored (omega (arith, le)) (omega (arith, le, low, high))
    ]

pub decayed_weight-bounds :
    (w age : ℕ) → (100 ≤ decayed_weight w age) × (decayed_weight w age ≤ max 100 w)
unfolding decayed_weight
decayed_weight-bounds w age =
    let low =
      round_div-below (w * decay_period - decay_amount * (age - decay_period)) w (omega arith) in
    (omega arith, omega (arith, low))

-- Seen within thirty days, a pattern stays as it is. Else, without a weight, there is a KeyError; and
-- with one the weight alone changes: by 0.1 for each thirty days behind the first thirty, in
-- proportion, to the nearest thousandth; where that is at most 0.1, it is 0.1, and the pattern stays.
pub decay_pattern-Decayed : (now : ℕ) (p : Pattern) → Decayed now p (decay_pattern now p)
unfolding decay_pattern
decay_pattern-Decayed now p = elim (Bool-cases (ltb decay_period (now - get_or p.last_seen now))) [
  | inl late ↦ elim (Option-cases p.weight) [
    | inl e ↦ weightless (ground (arith, late)) e (rw (late, e) refl)
    | inr (w, e) ↦
        lowered w (decayed_weight w (now - get_or p.last_seen now)) (ground (arith, late)) e
          (decayed_weight-Lowered w (now - get_or p.last_seen now)) (rw (late, e) refl)
  ]
  | inr early ↦ fresh (ground (arith, early)) (rw early refl)
]
