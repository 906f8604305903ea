-- ===== src/Learned/Sorting.antt =====
-- The sort of `_evict_overflow`: by weight, the heaviest first, and stable.
use omnicursor.Prelude.{
  ℕ, ◌≤◌, ◌≡◌, refl, ◌∙◌, List, [], ◌∷◌, leb, ◌==◌, arith, leb→lt, inl, inr, keep, All, All-map,
  Bool-cases,
}
use omnicursor.Learned.{Pattern, weight_of}
use omnicursor.Learned.Steps.{insert_heavy, sort_heavy}

-- Each pattern weighs as much as any that follows it.
pub Descending : List Pattern → Type 0
Descending [] = Unit
Descending (p ∷ ps) = All (λ (q : Pattern). weight_of q ≤ weight_of p) ps × Descending ps

module _ {κ} (P : Pattern → Type κ) where
  insert_heavy-All : (p : Pattern) (ps : List Pattern) → P p → All P ps → All P (insert_heavy p ps)
  unfolding insert_heavy
  insert_heavy-All p [] h k = (h, tt)
  insert_heavy-All p (q ∷ qs) h (k, ks) = elim (Bool-cases (leb (weight_of q) (weight_of p))) [
    | inl e ↦ rw e (h, (k, ks))
    | inr e ↦ rw e (k, insert_heavy-All p qs h ks)
  ]

  pub sort_heavy-All : (ps : List Pattern) → All P ps → All P (sort_heavy ps)
  unfolding sort_heavy
  sort_heavy-All [] h = tt
  sort_heavy-All (p ∷ ps) (h, hs) = insert_heavy-All p (sort_heavy ps) h (sort_heavy-All ps hs)

insert_heavy-Descending :
    (p : Pattern) (ps : List Pattern) → Descending ps → Descending (insert_heavy p ps)
unfolding insert_heavy Descending
insert_heavy-Descending p [] h = (tt, tt)
insert_heavy-Descending p (q ∷ qs) (h, d) = elim (Bool-cases (leb (weight_of q) (weight_of p))) [
  | inl e ↦
      let le : weight_of q ≤ weight_of p = ground arith in
      rw e (
        (
          le,
          All-map _ _ (λ (r : Pattern) (k : weight_of r ≤ weight_of q). omega (arith, k, le)) qs h,
        ),
        (h, d),
      )
  | inr e ↦
      let lt = leb→lt (weight_of q) (weight_of p) e in
      rw e (
        insert_heavy-All (λ (r : Pattern). weight_of r ≤ weight_of q) p qs (omega (arith, lt)) h,
        insert_heavy-Descending p qs d,
      )
]

sort_heavy-Descending : (ps : List Pattern) → Descending (sort_heavy ps)
unfolding sort_heavy Descending
sort_heavy-Descending [] = tt
sort_heavy-Descending (p ∷ ps) =
    insert_heavy-Descending p (sort_heavy ps) (sort_heavy-Descending ps)

-- those of one weight, in their order
abbrev pub of_weight : ℕ → List Pattern → List Pattern
of_weight w ps = keep (λ (p : Pattern). weight_of p == w) ps

of_weight-insert_heavy :
    (w : ℕ) (p : Pattern) (ps : List Pattern)
    → of_weight w (insert_heavy p ps) ≡ of_weight w (p ∷ ps)
unfolding insert_heavy
of_weight-insert_heavy w p [] = refl
of_weight-insert_heavy w p (q ∷ qs) =
    let rest = of_weight-insert_heavy w p qs in
    elim (Bool-cases (leb (weight_of q) (weight_of p))) [ inl e ↦ rw e refl | inr e ↦ ground arith ]

of_weight-sort_heavy : (w : ℕ) (ps : List Pattern) → of_weight w (sort_heavy ps) ≡ of_weight w ps
unfolding sort_heavy
of_weight-sort_heavy w [] = refl
of_weight-sort_heavy w (p ∷ ps) =
    let rest = of_weight-sort_heavy w ps in
    of_weight-insert_heavy w p (sort_heavy ps) ∙ ground arith

-- The patterns of a domain are sorted by weight, the heaviest first; those of each weight are the
-- ones that were there, all of them and in the order in which they were.
pub sort_heavy_lem :
    (ps : List Pattern)
    → Descending (sort_heavy ps) × ((w : ℕ) → of_weight w (sort_heavy ps) ≡ of_weight w ps)
sort_heavy_lem ps = (sort_heavy-Descending ps, λ w. of_weight-sort_heavy w ps)
