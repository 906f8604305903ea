-- ===== src/Prelude/Sorting.antt =====
-- `sorted(xs, key=…, reverse=True)`: a stable sort, given the test that one element may stand before
-- another.
use mathlib.Core.Path.{◌≡◌, refl, ap, ◌∙◌}
use mathlib.Core.Logic.{◌⊎◌, inl, inr}
use mathlib.Core.Bool.{Bool, true, false, not}
use mathlib.Core.List.{List, [], ◌∷◌, ◌++◌, map, Perm, perm_middle}
use mathlib.Core.List.Perm
use native.Mathlib.Omega.{arith}
use Prim.Native.Nat.{ℕ, zero, suc}
use omnicursor.Prelude.Tests.{Bool-cases, if◌then◌else◌}
use omnicursor.Prelude.Lists.{All, All-map, Has, length, take, keep, All-take}

module _ {A : Type 0} (before : A → A → Bool) where
  unfoldable pub insert_by : A → List A → List A
  insert_by x [] = x ∷ []
  insert_by x (y ∷ ys) = let rest = insert_by x ys in if before x y then x ∷ y ∷ ys else y ∷ rest

  unfoldable pub sort_by : List A → List A
  sort_by [] = []
  sort_by (x ∷ xs) = insert_by x (sort_by xs)

  -- each element may stand before all that follow it
  abbrev pub Ordered : List A → Type 0
  Ordered [] = Unit
  Ordered (x ∷ xs) = All (λ y. before x y ≡ true) xs × Ordered xs

  length-insert_by : (x : A) (xs : List A) → length (insert_by x xs) ≡ suc (length xs)
  unfolding insert_by
  length-insert_by x [] = refl
  length-insert_by x (y ∷ ys) = ground (arith, length-insert_by x ys)

  insert_by-perm : (x : A) (xs : List A) → Perm (insert_by x xs) (x ∷ xs)
  unfolding insert_by
  insert_by-perm x [] = Perm.rfl
  insert_by-perm x (y ∷ ys) = elim (Bool-cases (before x y)) [
    | inl e ↦ rw e Perm.rfl
    | inr e ↦ rw e (Perm.trans (Perm.cons y (insert_by-perm x ys)) (Perm.swap x y ys))
  ]

  pub sort_by-perm : (xs : List A) → Perm (sort_by xs) xs
  unfolding sort_by
  sort_by-perm [] = Perm.rfl
  sort_by-perm (x ∷ xs) = Perm.trans (insert_by-perm x (sort_by xs)) (Perm.cons x (sort_by-perm xs))

  pub length-sort_by : (xs : List A) → length (sort_by xs) ≡ length xs
  unfolding sort_by
  length-sort_by [] = refl
  length-sort_by (x ∷ xs) = omega (arith, length-insert_by x (sort_by xs), length-sort_by xs)

  insert_by-All {κ} :
      (P : A → Type κ) (x : A) (xs : List A) → P x → All P xs → All P (insert_by x xs)
  unfolding insert_by
  insert_by-All P x [] h k = (h, tt)
  insert_by-All P x (y ∷ ys) h (k, ks) = elim (Bool-cases (before x y)) [
    | inl e ↦ rw e (h, (k, ks))
    | inr e ↦ rw e (k, insert_by-All P x ys h ks)
  ]

  pub sort_by-All {κ} : (P : A → Type κ) (xs : List A) → All P xs → All P (sort_by xs)
  unfolding sort_by
  sort_by-All P [] h = tt
  sort_by-All P (x ∷ xs) (h, hs) = insert_by-All P x (sort_by xs) h (sort_by-All P xs hs)

  insert_by-Has : (a x : A) (xs : List A) → (x ≡ a) ⊎ Has a xs → Has a (insert_by x xs)
  unfolding insert_by
  insert_by-Has a x [] h = h
  insert_by-Has a x (y ∷ ys) h = elim (Bool-cases (before x y)) [
    | inl e ↦ rw e h
    | inr e ↦ rw e (elim h [
      | inl k ↦ inr (insert_by-Has a x ys (inl k))
      | inr (inl k) ↦ inl k
      | inr (inr k) ↦ inr (insert_by-Has a x ys (inr k))
    ])
  ]

  -- what the list has, the sorted list has
  pub sort_by-Has : (a : A) (xs : List A) → Has a xs → Has a (sort_by xs)
  unfolding sort_by
  sort_by-Has a [] h = h
  sort_by-Has a (x ∷ xs) (inl e) = insert_by-Has a x (sort_by xs) (inl e)
  sort_by-Has a (x ∷ xs) (inr h) = insert_by-Has a x (sort_by xs) (inr (sort_by-Has a xs h))

  module _ (Ok : A → Type 0) (total : (x y : A) → before x y ≡ false → before y x ≡ true)
      (trans : (x y z : A) → Ok y → before x y ≡ true → before y z ≡ true → before x z ≡ true) where
    insert_by-Ordered : (x : A) (xs : List A) → All Ok xs → Ordered xs → Ordered (insert_by x xs)
    unfolding insert_by
    insert_by-Ordered x [] oks o = (tt, tt)
    insert_by-Ordered x (y ∷ ys) (ok, oks) (h, o) = elim (Bool-cases (before x y)) [
      | inl e ↦ rw e ((e, All-map _ _ (λ z k. trans x y z ok e k) ys h), (h, o))
      | inr e ↦ rw e (
        insert_by-All (λ z. before y z ≡ true) x ys (total x y e) h,
        insert_by-Ordered x ys oks o,
      )
    ]

    pub sort_by-Ordered : (xs : List A) → All Ok xs → Ordered (sort_by xs)
    unfolding sort_by
    sort_by-Ordered [] oks = tt
    sort_by-Ordered (x ∷ xs) (ok, oks) =
        insert_by-Ordered x (sort_by xs) (sort_by-All Ok xs oks) (sort_by-Ordered xs oks)

  -- a sorted list cut short is sorted
  pub Ordered-take : (n : ℕ) (xs : List A) → Ordered xs → Ordered (take n xs)
  Ordered-take zero xs o = tt
  Ordered-take (suc n) [] o = tt
  Ordered-take (suc n) (x ∷ xs) (h, o) =
      (All-take (λ y. before x y ≡ true) n xs h, Ordered-take n xs o)

choose-perm :
    {A : Type 0} (b : Bool) (x : A) (ls rs : List A) {xs : List A}
    → Perm (ls ++ rs) xs
    → Perm
        (elim b [ true ↦ x ∷ ls | false ↦ ls ] ++ elim (not b) [ true ↦ x ∷ rs | false ↦ rs ])
        (x ∷ xs)
choose-perm true x ls rs h = Perm.cons x h
choose-perm false x ls rs h = Perm.trans (perm_middle ls rs) (Perm.cons x h)

module _ {A : Type 0} (p : A → Bool) where
  -- a list is what a test keeps and what it leaves
  keep-perm : (xs : List A) → Perm (keep p xs ++ keep (λ x. not (p x)) xs) xs
  keep-perm [] = Perm.rfl
  keep-perm (x ∷ xs) = choose-perm (p x) x _ _ (keep-perm xs)

  -- the sorted list of what is kept, with what is left, rearranges the list
  pub sort_by-keep-perm :
      (before : A → A → Bool) (xs : List A)
      → Perm (sort_by before (keep p xs) ++ keep (λ x. not (p x)) xs) xs
  sort_by-keep-perm before xs =
      Perm.trans (Perm.append_right _ (sort_by-perm before (keep p xs))) (keep-perm xs)

  pub keep-Left : (xs : List A) → All (λ x. p x ≡ false) (keep (λ x. not (p x)) xs)
  keep-Left [] = tt
  keep-Left (x ∷ xs) = elim (Bool-cases (p x)) [
    | inl e ↦ rw (e, keep) (keep-Left xs)
    | inr e ↦ rw (e, keep) (e, keep-Left xs)
  ]

-- To sort what a function gives is to sort by what it gives.
module _ {A B : Type 0} (f : A → B) (before : B → B → Bool) where
  insert_by-map :
      (x : A) (xs : List A)
      → insert_by before (f x) (map f xs) ≡ map f (insert_by (λ a b. before (f a) (f b)) x xs)
  unfolding insert_by
  insert_by-map x [] = refl
  insert_by-map x (y ∷ ys) =
      let rest = insert_by-map x ys in
      elim (Bool-cases (before (f x) (f y))) [
        | inl e ↦ rw e refl
        | inr e ↦ rw e (ap (λ l. f y ∷ l) rest)
      ]

  pub sort_by-map :
      (xs : List A) → sort_by before (map f xs) ≡ map f (sort_by (λ a b. before (f a) (f b)) xs)
  unfolding sort_by
  sort_by-map [] = refl
  sort_by-map (x ∷ xs) =
      ap (insert_by before (f x)) (sort_by-map xs)
      ∙ insert_by-map x (sort_by (λ a b. before (f a) (f b)) xs)
