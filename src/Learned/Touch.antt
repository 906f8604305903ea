-- ===== src/Learned/Touch.antt =====
-- The loop over the identifiers of one event, against a description without a loop.
use omnicursor.Prelude.{
  ℕ, zero, suc, ◌+◌, ◌<◌, ◌≡◌, ◌≢◌, refl, ap, ◌∙◌, sym, Bool, true, false, not, ◌&&◌, ◌||◌, Option,
  none, some, List, [], ◌∷◌, arith, ◌==◌, if◌then◌else◌, inl, inr, Bool-cases, Option-cases,
}
use omnicursor.Text.{Text, same, same_iff, is_empty}
use omnicursor.Keywords.{member}
use omnicursor.Learned.{Pattern}
use omnicursor.Learned.Index.{last_index_injective}
use omnicursor.Learned.Session.{
  last_index, count_injection, count_at, Tally, count_found, count_ids,
}

-- `o` is the place `i`
abbrev pub is_place : Option ℕ → ℕ → Bool
is_place none i = false
is_place (some j) i = j == i

-- an identifier of the list, not empty and not met before, leads to the place
pub reached : (Text → Option ℕ) → List Text → List Text → ℕ → Bool
reached index seen [] i = false
reached index seen (pid ∷ pids) i =
    (not (is_empty pid || member pid seen) && is_place (index pid) i) || reached index seen pids i

-- one injection for each pattern at a place that the test holds of
pub inject_where : Bool → ℕ → (ℕ → Bool) → ℕ → List Pattern → List Pattern
inject_where success now f i [] = []
inject_where success now f i (p ∷ ps) =
    (if f i then count_injection success now p else p) ∷ inject_where success now f (suc i) ps

module _ (success : Bool) (now : ℕ) (f g : ℕ → Bool) where
  inject_where-cong :
      (k : ℕ) (ps : List Pattern)
      → ((i : ℕ) → f i ≡ g i)
      → inject_where success now f k ps ≡ inject_where success now g k ps
  unfolding inject_where
  inject_where-cong k [] h = refl
  inject_where-cong k (p ∷ ps) h = rw (h k, inject_where-cong (suc k) ps h) refl

  inject_where-beyond :
      (k j : ℕ) (ps : List Pattern)
      → ((i : ℕ) → i ≢ j → f i ≡ g i)
      → j < k
      → inject_where success now f k ps ≡ inject_where success now g k ps
  unfolding inject_where
  inject_where-beyond k j [] h lt = refl
  inject_where-beyond k j (p ∷ ps) h lt =
      rw (h k (omega (arith, lt)), inject_where-beyond (suc k) j ps h (omega (arith, lt))) refl

  inject_where-count_at :
      (m k j : ℕ) (ps : List Pattern)
      → m ≡ k + j
      → f m ≡ false
      → g m ≡ true
      → ((i : ℕ) → i ≢ m → f i ≡ g i)
      → inject_where success now f k (count_at success now j ps) ≡ inject_where success now g k ps
  unfolding inject_where count_at
  inject_where-count_at m k j [] place off on h = refl
  inject_where-count_at m k zero (p ∷ ps) place off on h =
      let here : m ≡ k = omega (arith, place) in
      let no_k : f k ≡ false = ap f (sym here) ∙ off in
      let yes_k : g k ≡ true = ap g (sym here) ∙ on in
      rw (no_k, yes_k, inject_where-beyond (suc k) m ps h (omega (arith, here))) refl
  inject_where-count_at m k (suc j) (p ∷ ps) place off on h =
      let other : k ≢ m = λ e. omega (arith, place, e) in
      rw (h k other, inject_where-count_at m (suc k) j ps (omega (arith, place)) off on h) refl

is_place-same : (o : Option ℕ) (i : ℕ) → is_place o i ≡ true → o ≡ some i
is_place-same none i h = cc
is_place-same (some j) i h = ground (arith, h)

place-is_place : (i j : ℕ) (o : Option ℕ) → o ≡ some j → i ≢ j → is_place o i ≡ false
place-is_place i j none e h = refl
place-is_place i j (some k) e h = ground (arith, e, h)

module _ (index : Text → Option ℕ)
    (injective : (a b : Text) (i : ℕ) → index a ≡ some i → index b ≡ some i → a ≡ b) where
  reached_not :
      (seen pids : List Text) (pid : Text) (j : ℕ)
      → index pid ≡ some j
      → reached index (pid ∷ seen) pids j ≡ false
  unfolding reached member
  reached_not seen [] pid j e = refl
  reached_not seen (q ∷ pids) pid j e = elim (Bool-cases (is_place (index q) j)) [
    | inl f ↦
        let same_pid : same pid q ≡ true =
          (same_iff pid q).1 (injective pid q j e (is_place-same (index q) j f)) in
        ground (arith, same_pid, reached_not seen pids pid j e)
    | inr f ↦ ground (arith, f, reached_not seen pids pid j e)
  ]

  reached_other :
      (seen pids : List Text) (pid : Text) (i j : ℕ)
      → index pid ≡ some j
      → i ≢ j
      → reached index (pid ∷ seen) pids i ≡ reached index seen pids i
  unfolding reached member
  reached_other seen [] pid i j e h = refl
  reached_other seen (q ∷ pids) pid i j e h = elim (Bool-cases (same pid q)) [
    | inl f ↦
        let none_here : is_place (index q) i ≡ false =
          place-is_place i j (index q) (ap index (sym ((same_iff pid q).0 f)) ∙ e) h in
        ground (arith, none_here, reached_other seen pids pid i j e h)
    | inr f ↦ ground (arith, f, reached_other seen pids pid i j e h)
  ]

module _ (index : Text → Option ℕ) (success : Bool) (now : ℕ)
    (injective : (a b : Text) (i : ℕ) → index a ≡ some i → index b ≡ some i → a ≡ b) where
  reached-none :
      (seen pids : List Text) (pid : Text) (i : ℕ)
      → index pid ≡ none
      → reached index (pid ∷ seen) pids i ≡ reached index seen pids i
  unfolding reached member
  reached-none seen [] pid i e = refl
  reached-none seen (q ∷ pids) pid i e = elim (Bool-cases (same pid q)) [
    | inl f ↦
        let none_here : index q ≡ none = ap index (sym ((same_iff pid q).0 f)) ∙ e in
        ground (arith, none_here, reached-none seen pids pid i e)
    | inr f ↦ ground (arith, f, reached-none seen pids pid i e)
  ]

  inject_where-nowhere :
      (k : ℕ) (seen : List Text) (ps : List Pattern)
      → inject_where success now (reached index seen []) k ps ≡ ps
  unfolding inject_where reached
  inject_where-nowhere k seen [] = refl
  inject_where-nowhere k seen (p ∷ ps) = ap (λ qs. p ∷ qs) (inject_where-nowhere (suc k) seen ps)

  count_ids-cons :
      (seen pids : List Text) (pid : Text) (t : Tally)
      → is_empty pid || member pid seen ≡ false
      → count_ids index success now seen (pid ∷ pids) t
        ≡ count_ids index success now
            (pid ∷ seen)
            pids
            (count_found index success now (index pid) t)
  unfolding count_ids
  count_ids-cons seen pids pid t h = rw (h, count_ids) refl

  count_ids-skip :
      (seen pids : List Text) (pid : Text) (t : Tally)
      → is_empty pid || member pid seen ≡ true
      → count_ids index success now seen (pid ∷ pids) t ≡ count_ids index success now seen pids t
  unfolding count_ids
  count_ids-skip seen pids pid t h = rw (h, count_ids) refl

  reached-cons :
      (b : Bool) (seen pids : List Text) (pid : Text) (i : ℕ)
      → is_empty pid || member pid seen ≡ b
      → reached index seen (pid ∷ pids) i
        ≡ ((not b && is_place (index pid) i) || reached index seen pids i)
  unfolding reached
  reached-cons b seen pids pid i h = rw h refl

  reached-missing :
      (seen pids : List Text) (pid : Text) (i : ℕ)
      → is_empty pid || member pid seen ≡ false
      → index pid ≡ none
      → reached index (pid ∷ seen) pids i ≡ reached index seen (pid ∷ pids) i
  reached-missing seen pids pid i h e =
      reached-none seen pids pid i e ∙ sym (reached-cons false seen pids pid i h ∙ rw e refl)

  reached-elsewhere :
      (seen pids : List Text) (pid : Text) (i j : ℕ)
      → is_empty pid || member pid seen ≡ false
      → index pid ≡ some j
      → i ≢ j
      → reached index (pid ∷ seen) pids i ≡ reached index seen (pid ∷ pids) i
  reached-elsewhere seen pids pid i j h e k =
      reached_other index injective seen pids pid i j e k
      ∙ sym (reached-cons false seen pids pid i h ∙ rw (place-is_place i j (index pid) e k) refl)

  reached-here :
      (seen pids : List Text) (pid : Text) (j : ℕ)
      → is_empty pid || member pid seen ≡ false
      → index pid ≡ some j
      → reached index seen (pid ∷ pids) j ≡ true
  reached-here seen pids pid j h e = reached-cons false seen pids pid j h ∙ rw e (ground arith)

  found :
      (seen pids : List Text) (pid : Text) (t : Tally)
      → is_empty pid || member pid seen ≡ false
      → inject_where success now
          (reached index (pid ∷ seen) pids)
          0
          (count_found index success now (index pid) t).existing
        ≡ inject_where success now (reached index seen (pid ∷ pids)) 0 t.existing
  unfolding count_found
  found seen pids pid t fresh = elim (Option-cases (index pid)) [
    | inl e ↦
        ap
          (λ o.
            inject_where success now (reached index (pid ∷ seen) pids) 0
              (count_found index success now o t).existing)
          e
        ∙ inject_where-cong success now _ _ 0 t.existing
            (λ i. reached-missing seen pids pid i fresh e)
    | inr (j, e) ↦
        ap
          (λ o.
            inject_where success now (reached index (pid ∷ seen) pids) 0
              (count_found index success now o t).existing)
          e
        ∙ inject_where-count_at success now _ _ j 0 j t.existing (omega arith)
            (reached_not index injective seen pids pid j e) (reached-here seen pids pid j fresh e)
            (λ i k. reached-elsewhere seen pids pid i j fresh e k)
  ]

  count_ids-inject_where :
      (seen pids : List Text) (t : Tally)
      → (count_ids index success now seen pids t).existing
        ≡ inject_where success now (reached index seen pids) 0 t.existing
  count_ids-inject_where seen [] t =
      unfold count_ids in sym (inject_where-nowhere 0 seen t.existing)
  count_ids-inject_where seen (pid ∷ pids) t = elim (Bool-cases (is_empty pid || member pid seen)) [
    | inl skip ↦
        ap (λ (u : Tally). u.existing) (count_ids-skip seen pids pid t skip)
        ∙ (count_ids-inject_where seen pids t
            ∙ inject_where-cong success now _ _ 0 t.existing
                (λ i. sym (reached-cons true seen pids pid i skip)))
    | inr fresh ↦
        ap (λ (u : Tally). u.existing) (count_ids-cons seen pids pid t fresh)
        ∙ (count_ids-inject_where (pid ∷ seen) pids (count_found index success now (index pid) t)
            ∙ found seen pids pid t fresh)
  ]

-- One event counts exactly one injection for each pattern that an identifier of the event leads to,
-- however often the event names it, and leaves all other patterns alone: the loop, with the index
-- of the patterns `indexed`, is a single pass over the patterns.
pub count_ids-exact :
    (indexed : List Pattern) (success : Bool) (now : ℕ) (pids : List Text) (t : Tally)
    → (count_ids (λ pid. last_index pid 0 indexed) success now [] pids t).existing
      ≡ inject_where success now (reached (λ pid. last_index pid 0 indexed) [] pids) 0 t.existing
count_ids-exact indexed success now pids t =
    count_ids-inject_where (λ pid. last_index pid 0 indexed) success now
      (λ a b i. last_index_injective a b 0 i indexed) [] pids t
