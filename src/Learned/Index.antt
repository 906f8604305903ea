-- ===== src/Learned/Index.antt =====
-- `id_index` of `write_session_patterns`: where an identifier leads to.
use omnicursor.Prelude.{
  ℕ, suc, ◌+◌, ◌≤◌, ◌<◌, ◌≡◌, ◌∙◌, sym, true, not, ◌&&◌, some, List, [], ◌∷◌, arith, ◌⊎◌, inl, inr,
  length, Bool-cases, Option-cases,
}
use omnicursor.Text.{Text, same, same_iff, is_empty}
use omnicursor.Learned.{Pattern}
use omnicursor.Learned.Session.{last_index}

pub last_index-lt :
    (pid : Text) (i j : ℕ) (ps : List Pattern) → last_index pid i ps ≡ some j → j < i + length ps
unfolding last_index
last_index-lt pid i j [] h = cc
last_index-lt pid i j (p ∷ ps) h = elim (Option-cases (last_index pid (suc i) ps)) [
  | inl e ↦ elim (Bool-cases (not (is_empty p.pattern_id) && same p.pattern_id pid)) [
    | inl f ↦ ground (arith, e, f, h)
    | inr f ↦ ground (arith, e, f, h)
  ]
  | inr (k, e) ↦ let lt = last_index-lt pid (suc i) k ps e in ground (arith, e, h, lt)
]

last_index-ge : (a : Text) (k i : ℕ) (ps : List Pattern) → last_index a k ps ≡ some i → k ≤ i
unfolding last_index
last_index-ge a k i [] h = cc
last_index-ge a k i (p ∷ ps) h = elim (Option-cases (last_index a (suc k) ps)) [
  | inl e ↦ ground (arith, e, h)
  | inr (j, e) ↦ let le = last_index-ge a (suc k) j ps e in ground (arith, e, h, le)
]

last_index-cases :
    (a : Text) (k i : ℕ) (p : Pattern) (ps : List Pattern)
    → last_index a k (p ∷ ps) ≡ some i
    → (i ≡ k) × (same p.pattern_id a ≡ true) ⊎ (last_index a (suc k) ps ≡ some i)
unfolding last_index
last_index-cases a k i p ps h = elim (Option-cases (last_index a (suc k) ps)) [
  | inl e ↦ elim (Bool-cases (not (is_empty p.pattern_id) && same p.pattern_id a)) [
    | inl f ↦ inl (ground (arith, e, f, h), ground (arith, f))
    | inr f ↦ ground (arith, e, f, h)
  ]
  | inr (j, e) ↦ inr (ground (arith, e, h))
]

pub last_index_injective :
    (a b : Text) (k i : ℕ) (ps : List Pattern)
    → last_index a k ps ≡ some i
    → last_index b k ps ≡ some i
    → a ≡ b
unfolding last_index
last_index_injective a b k i [] h g = cc
last_index_injective a b k i (p ∷ ps) h g = elim (last_index-cases a k i p ps h) [
  | inl (e, x) ↦ elim (last_index-cases b k i p ps g) [
    | inl (f, y) ↦ sym ((same_iff p.pattern_id a).0 x) ∙ (same_iff p.pattern_id b).0 y
    | inr later ↦ let le = last_index-ge b (suc k) i ps later in absurd (omega (arith, e, le))
  ]
  | inr first ↦ elim (last_index-cases b k i p ps g) [
    | inl (f, y) ↦ let le = last_index-ge a (suc k) i ps first in absurd (omega (arith, f, le))
    | inr later ↦ last_index_injective a b (suc k) i ps first later
  ]
]
