-- ===== src/Prelude/Lists.antt =====
-- Lists measured and cut by native numbers, Boolean tests over lists, and two predicates on lists.
use Prim.Native.Nat.{ℕ, zero, suc, ◌+◌, ◌≤◌}
use mathlib.Core.Path.{◌≡◌, refl, ap, ◌∙◌, subst}
use mathlib.Core.Logic.{◌⊎◌, inl, inr}
use mathlib.Core.Bool.{Bool, true, false, ◌&&◌, ◌||◌}
use mathlib.Core.List.{List, [], ◌∷◌, ◌++◌, map}
use native.Mathlib.Omega.{arith}
use omnicursor.Prelude.Tests.{Bool-cases}

module _ {ℓ} {A : Type ℓ} where
  abbrev pub length : List A → ℕ
  length [] = 0
  length (x ∷ xs) = suc (length xs)

  abbrev pub take : ℕ → List A → List A
  take zero xs = []
  take (suc n) [] = []
  take (suc n) (x ∷ xs) = x ∷ take n xs

  abbrev pub drop : ℕ → List A → List A
  drop zero xs = xs
  drop (suc n) [] = []
  drop (suc n) (x ∷ xs) = drop n xs

  abbrev pub any : (A → Bool) → List A → Bool
  any p [] = false
  any p (x ∷ xs) = p x || any p xs

  abbrev pub all : (A → Bool) → List A → Bool
  all p [] = true
  all p (x ∷ xs) = p x && all p xs

  abbrev pub keep : (A → Bool) → List A → List A
  keep p [] = []
  keep p (x ∷ xs) = elim (p x) [ true ↦ x ∷ keep p xs | false ↦ keep p xs ]

  pub length-append : (xs ys : List A) → length (xs ++ ys) ≡ length xs + length ys
  length-append [] ys = omega arith
  length-append (x ∷ xs) ys = omega (arith, length-append xs ys)

  pub length-take-le : (n : ℕ) (xs : List A) → length (take n xs) ≤ n
  length-take-le zero xs = omega arith
  length-take-le (suc n) [] = omega arith
  length-take-le (suc n) (x ∷ xs) = omega (arith, length-take-le n xs)

  pub take-append-drop : (n : ℕ) (xs : List A) → take n xs ++ drop n xs ≡ xs
  take-append-drop zero xs = refl
  take-append-drop (suc n) [] = refl
  take-append-drop (suc n) (x ∷ xs) = ap (λ t. x ∷ t) (take-append-drop n xs)

module _ {A : Type 0} where
  -- `a` is an element of the list, at a known place.
  abbrev pub Has : A → List A → Type 0
  Has a [] = ⊥
  Has a (x ∷ xs) = (x ≡ a) ⊎ Has a xs

  pub Has-append_left : (a : A) (xs ys : List A) → Has a xs → Has a (xs ++ ys)
  Has-append_left a [] ys h = absurd h
  Has-append_left a (x ∷ xs) ys (inl e) = inl e
  Has-append_left a (x ∷ xs) ys (inr h) = inr (Has-append_left a xs ys h)

  pub Has-append_right : (a : A) (xs ys : List A) → Has a ys → Has a (xs ++ ys)
  Has-append_right a [] ys h = h
  Has-append_right a (x ∷ xs) ys h = inr (Has-append_right a xs ys h)

  pub Has-keep : (p : A → Bool) (a : A) (xs : List A) → p a ≡ true → Has a xs → Has a (keep p xs)
  Has-keep p a [] e h = h
  Has-keep p a (x ∷ xs) e (inl k) = rw (ap p k ∙ e, keep) (inl k)
  Has-keep p a (x ∷ xs) e (inr h) = elim (Bool-cases (p x)) [
    | inl f ↦ rw (f, keep) (inr (Has-keep p a xs e h))
    | inr f ↦ rw (f, keep) (Has-keep p a xs e h)
  ]

module _ {A B : Type 0} (f : A → B) where
  pub Has-map : (a : A) (xs : List A) → Has a xs → Has (f a) (map f xs)
  Has-map a [] h = h
  Has-map a (x ∷ xs) (inl e) = inl (ap f e)
  Has-map a (x ∷ xs) (inr h) = inr (Has-map a xs h)

module _ {ℓ κ} {A : Type ℓ} (P : A → Type κ) where
  abbrev pub All : List A → Type κ
  All [] = Unit
  All (x ∷ xs) = P x × All xs

  pub All-append : (xs ys : List A) → All xs → All ys → All (xs ++ ys)
  All-append [] ys _ k = k
  All-append (x ∷ xs) ys (p, h) k = (p, All-append xs ys h k)

  pub All-take : (n : ℕ) (xs : List A) → All xs → All (take n xs)
  All-take zero xs h = tt
  All-take (suc n) [] h = tt
  All-take (suc n) (x ∷ xs) (p, h) = (p, All-take n xs h)

  pub All-append_left : (xs ys : List A) → All (xs ++ ys) → All xs
  All-append_left [] ys h = tt
  All-append_left (x ∷ xs) ys (p, h) = (p, All-append_left xs ys h)

  pub All-append_right : (xs ys : List A) → All (xs ++ ys) → All ys
  All-append_right [] ys h = h
  All-append_right (x ∷ xs) ys (p, h) = All-append_right xs ys h

module _ {ℓ κ μ} {A : Type ℓ} (P : A → Type κ) (Q : A → Type μ) where
  pub All-map : ((a : A) → P a → Q a) → (xs : List A) → All P xs → All Q xs
  All-map f [] h = tt
  All-map f (x ∷ xs) (p, h) = (f x p, All-map f xs h)

module _ {ℓ} {A : Type ℓ} (f : A → Bool) where
  pub keep-append : (xs ys : List A) → keep f (xs ++ ys) ≡ keep f xs ++ keep f ys
  keep-append [] ys = refl
  keep-append (x ∷ xs) ys = ground (arith, keep-append xs ys)

  pub keep-All : (xs : List A) → All (λ a. f a ≡ true) xs → keep f xs ≡ xs
  keep-All [] h = refl
  keep-All (x ∷ xs) (e, h) = ground (arith, keep-All xs h)

  pub keep-none : (xs : List A) → All (λ a. f a ≡ false) xs → keep f xs ≡ []
  keep-none [] h = refl
  keep-none (x ∷ xs) (e, h) = ground (arith, keep-none xs h)

  pub All-keep : (xs : List A) → All (λ a. f a ≡ true) (keep f xs)
  All-keep [] = tt
  All-keep (x ∷ xs) = elim (Bool-cases (f x)) [
    | inl e ↦ rw (e, keep) (e, All-keep xs)
    | inr e ↦ rw (e, keep) (All-keep xs)
  ]

  pub keep-Keeps {κ} : (P : A → Type κ) (xs : List A) → All P xs → All P (keep f xs)
  keep-Keeps P [] h = tt
  keep-Keeps P (x ∷ xs) (p, h) = elim (Bool-cases (f x)) [
    | inl e ↦ rw (e, keep) (p, keep-Keeps P xs h)
    | inr e ↦ rw (e, keep) (keep-Keeps P xs h)
  ]

module _ {κ} {A : Type 0} (P : A → Type κ) where
  pub All-Has : (a : A) (xs : List A) → All P xs → Has a xs → P a
  All-Has a [] h has = absurd has
  All-Has a (x ∷ xs) (p, h) (inl e) = subst P e p
  All-Has a (x ∷ xs) (p, h) (inr has) = All-Has a xs h has
