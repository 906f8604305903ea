-- ===== src/Learned/Overflow.antt =====
-- What `_evict_overflow` leaves of each domain.
use omnicursor.Prelude.{
  ℕ, ◌≡◌, refl, ap, ◌∙◌, sym, subst, Bool, true, false, List, [], ◌∷◌, ◌++◌, if◌then◌else◌, inl,
  inr, keep, take, All, All-map, All-append, All-take, Bool-cases, keep-append, keep-All, keep-none,
}
use mathlib.Core.List.{append-nil, append_assoc}
use omnicursor.Text.{Text, same, same_iff, same_comm}
use omnicursor.Learned.{Pattern, domain_of, max_patterns_per_domain}
use omnicursor.Learned.Steps.{append_to, group_by_domain, sort_heavy, best_of_each, evict_overflow}
use omnicursor.Learned.Sorting.{sort_heavy-All, Descending, of_weight, sort_heavy_lem}

-- the patterns of a domain
abbrev pub of_domain : Text → List Pattern → List Pattern
of_domain d ps = keep (λ (p : Pattern). same (domain_of p) d) ps

-- what a dictionary of groups holds under a key
find : Text → List (Text × List Pattern) → List Pattern
find d [] = []
find d ((e, l) ∷ gs) = if same e d then l else find d gs

NoKey : Text → List (Text × List Pattern) → Type 0
NoKey d [] = Unit
NoKey d ((e, l) ∷ gs) = (same e d ≡ false) × NoKey d gs

-- No key twice, and each group is of patterns of its key.
Good : List (Text × List Pattern) → Type 0
unfolding NoKey
Good [] = Unit
Good ((e, l) ∷ gs) = NoKey e gs × All (λ (p : Pattern). domain_of p ≡ e) l × Good gs

append_to-NoKey :
    (d k : Text) (p : Pattern) (gs : List (Text × List Pattern))
    → same k d ≡ false
    → NoKey d gs
    → NoKey d (append_to k p gs)
unfolding append_to NoKey
append_to-NoKey d k p [] e h = (e, tt)
append_to-NoKey d k p ((c, l) ∷ gs) e (n, h) = elim (Bool-cases (same c k)) [
  | inl f ↦ rw f (n, h)
  | inr f ↦ rw f (n, append_to-NoKey d k p gs e h)
]

append_to-Good :
    (k : Text) (p : Pattern) (gs : List (Text × List Pattern))
    → domain_of p ≡ k
    → Good gs
    → Good (append_to k p gs)
unfolding append_to Good NoKey
append_to-Good k p [] e h = (tt, (e, tt), tt)
append_to-Good k p ((c, l) ∷ gs) e (n, a, h) = elim (Bool-cases (same c k)) [
  | inl f ↦ rw f (n, All-append _ l (p ∷ []) a (e ∙ sym ((same_iff c k).0 f), tt), h)
  | inr f ↦ rw f (append_to-NoKey c k p gs (same_comm k c ∙ f) n, a, append_to-Good k p gs e h)
]

group_by_domain-Good :
    (gs : List (Text × List Pattern)) (ps : List Pattern) → Good gs → Good (group_by_domain gs ps)
unfolding group_by_domain
group_by_domain-Good gs [] h = h
group_by_domain-Good gs (p ∷ ps) h =
    group_by_domain-Good (append_to (domain_of p) p gs) ps
      (append_to-Good (domain_of p) p gs refl h)

find-append_to :
    (d k : Text) (p : Pattern) (gs : List (Text × List Pattern))
    → find d (append_to k p gs) ≡ find d gs ++ (if same k d then p ∷ [] else [])
unfolding append_to find
find-append_to d k p [] = refl
find-append_to d k p ((c, l) ∷ gs) =
    let rest = find-append_to d k p gs in
    elim (Bool-cases (same c k)) [
      | inl f ↦
          let moved : same k d ≡ same c d = ap (λ x. same x d) (sym ((same_iff c k).0 f)) in
          elim (Bool-cases (same c d)) [
            | inl g ↦ rw (f, moved, g) refl
            | inr g ↦ rw (f, moved, g) (sym (append-nil (find d gs)))
          ]
      | inr f ↦ elim (Bool-cases (same c d)) [
        | inl g ↦
            let other : same k d ≡ false =
              ap (λ x. same k x) (sym ((same_iff c d).0 g)) ∙ (same_comm k c ∙ f) in
            rw (f, g, other) (sym (append-nil l))
        | inr g ↦ rw (f, g) rest
      ]
    ]

choose :
    (b : Bool) (p : Pattern) (ps : List Pattern)
    → (if b then p ∷ [] else []) ++ ps ≡ elim b [ true ↦ p ∷ ps | false ↦ ps ]
choose true p ps = refl
choose false p ps = refl

find-group_by_domain :
    (d : Text) (gs : List (Text × List Pattern)) (ps : List Pattern)
    → find d (group_by_domain gs ps) ≡ find d gs ++ of_domain d ps
unfolding group_by_domain
find-group_by_domain d gs [] = sym (append-nil (find d gs))
find-group_by_domain d gs (p ∷ ps) =
    find-group_by_domain d (append_to (domain_of p) p gs) ps
    ∙ (ap (λ l. l ++ of_domain d ps) (find-append_to d (domain_of p) p gs)
        ∙ (append_assoc (find d gs) _ (of_domain d ps)
            ∙ ap (λ l. find d gs ++ l) (choose (same (domain_of p) d) p (of_domain d ps))))

find-NoKey : (d : Text) (gs : List (Text × List Pattern)) → NoKey d gs → find d gs ≡ []
unfolding NoKey find
find-NoKey d [] h = refl
find-NoKey d ((c, l) ∷ gs) (e, h) = rw e (find-NoKey d gs h)

-- the part of a group in the result
abbrev best : List Pattern → List Pattern
best l = take max_patterns_per_domain (sort_heavy l)

of_domain-best-same :
    (d c : Text) (l : List Pattern)
    → same c d ≡ true
    → All (λ (p : Pattern). domain_of p ≡ c) l
    → of_domain d (best l) ≡ best l
of_domain-best-same d c l e h = keep-All _ (best l) (
    All-take _ max_patterns_per_domain (sort_heavy l) (
      sort_heavy-All _ l
        (All-map _ _ (λ (p : Pattern) (k : domain_of p ≡ c). ap (λ x. same x d) k ∙ e) l h)))

of_domain-best_other :
    (d c : Text) (l : List Pattern)
    → same c d ≡ false
    → All (λ (p : Pattern). domain_of p ≡ c) l
    → of_domain d (best l) ≡ []
of_domain-best_other d c l e h = keep-none _ (best l) (
    All-take _ max_patterns_per_domain (sort_heavy l) (
      sort_heavy-All _ l
        (All-map _ _ (λ (p : Pattern) (k : domain_of p ≡ c). ap (λ x. same x d) k ∙ e) l h)))

of_domain-best_of_each :
    (d : Text) (gs : List (Text × List Pattern))
    → Good gs
    → of_domain d (best_of_each gs) ≡ best (find d gs)
unfolding best_of_each Good find
of_domain-best_of_each d [] h = unfold sort_heavy in refl
of_domain-best_of_each d ((c, l) ∷ gs) (n, a, h) =
    let rest = of_domain-best_of_each d gs h in
    let split = keep-append (λ (p : Pattern). same (domain_of p) d) (best l) (best_of_each gs) in
    elim (Bool-cases (same c d)) [
      | inl e ↦
          let none_left = find-NoKey d gs (subst (λ k. NoKey k gs) ((same_iff c d).0 e) n) in
          let empty : of_domain d (best_of_each gs) ≡ [] =
            rest ∙ (ap (λ l. best l) none_left ∙ unfold sort_heavy in refl) in
          rw e (split ∙ (rw (of_domain-best-same d c l e a, empty) (append-nil (best l))))
      | inr e ↦ rw e (
          split
          ∙ (ap (λ l. l ++ of_domain d (best_of_each gs)) (of_domain-best_other d c l e a) ∙ rest))
    ]

pub of_domain-best :
    (d : Text) (ps : List Pattern)
    → of_domain d (evict_overflow ps) ≡ take max_patterns_per_domain (sort_heavy (of_domain d ps))
unfolding evict_overflow find
of_domain-best d ps =
    of_domain-best_of_each d (group_by_domain [] ps)
      (group_by_domain-Good [] ps (unfold Good in tt))
    ∙ ap (λ l. best l) (find-group_by_domain d [] ps)

-- The patterns of the list by weight, the heaviest first; those of each weight are the ones of the
-- list, all of them and in the order in which they stand there.
pub record ByWeight (ps sorted : List Pattern) : Type 0 where
  pub descending : Descending sorted
  pub same_ones : (w : ℕ) → of_weight w sorted ≡ of_weight w ps

-- Of each domain, `_evict_overflow` keeps the first twenty of its patterns by descending weight, where
-- patterns of one weight stay in their order; those of the other domains have no influence on it.
pub of_domain-evict_overflow :
    (d : Text) (ps : List Pattern)
    → (sorted : List Pattern) × ByWeight (of_domain d ps) sorted
      × (of_domain d (evict_overflow ps) ≡ take 20 sorted)
of_domain-evict_overflow d ps =
    let (down, ones) = sort_heavy_lem (of_domain d ps) in
    (
      sort_heavy (of_domain d ps),
      record { descending = down; same_ones = ones },
      of_domain-best d ps,
    )

module _ {κ} (P : Pattern → Type κ) where
  GroupsOf : List (Text × List Pattern) → Type κ
  GroupsOf [] = Unit
  GroupsOf ((e, l) ∷ gs) = All P l × GroupsOf gs

  append_to-GroupsOf :
      (k : Text) (p : Pattern) (gs : List (Text × List Pattern))
      → P p
      → GroupsOf gs
      → GroupsOf (append_to k p gs)
  unfolding append_to GroupsOf
  append_to-GroupsOf k p [] h hs = ((h, tt), tt)
  append_to-GroupsOf k p ((c, l) ∷ gs) h (a, hs) = elim (Bool-cases (same c k)) [
    | inl e ↦ rw e (All-append P l (p ∷ []) a (h, tt), hs)
    | inr e ↦ rw e (a, append_to-GroupsOf k p gs h hs)
  ]

  group_by_domain-GroupsOf :
      (gs : List (Text × List Pattern)) (ps : List Pattern)
      → GroupsOf gs
      → All P ps
      → GroupsOf (group_by_domain gs ps)
  unfolding group_by_domain
  group_by_domain-GroupsOf gs [] h _ = h
  group_by_domain-GroupsOf gs (p ∷ ps) h (k, ks) =
      group_by_domain-GroupsOf (append_to (domain_of p) p gs) ps
        (append_to-GroupsOf (domain_of p) p gs k h) ks

  best_of_each-All : (gs : List (Text × List Pattern)) → GroupsOf gs → All P (best_of_each gs)
  unfolding best_of_each GroupsOf
  best_of_each-All [] h = tt
  best_of_each-All ((c, l) ∷ gs) (a, h) =
      All-append P _ (best_of_each gs)
        (All-take P max_patterns_per_domain (sort_heavy l) (sort_heavy-All P l a))
        (best_of_each-All gs h)

  pub evict_overflow-All : (ps : List Pattern) → All P ps → All P (evict_overflow ps)
  unfolding evict_overflow
  evict_overflow-All ps h =
      best_of_each-All (group_by_domain [] ps)
        (group_by_domain-GroupsOf [] ps (unfold GroupsOf in tt) h)
