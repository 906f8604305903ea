-- ===== src/Sync/Merging.antt =====
-- What a merge of patterns keeps and adds.
use omnicursor.Prelude.{
  ◌≡◌, refl, ap, ◌∙◌, subst, ◌⊎◌, false, List, [], ◌∷◌, ◌++◌, map, Has, Bool-cases, inl, inr,
}
use mathlib.Core.List.{append-nil}
use omnicursor.Text.{Text}
use omnicursor.Keywords.{member, member_iff}
use omnicursor.Json.{Json}
use omnicursor.Sync.{pattern_identity, unseen, merge_patterns}

-- an identity that is found behind one more is it, or is found without it
behind :
    (i j : Text) (seen new : List Text)
    → Has i (j ∷ seen) ⊎ Has i new
    → Has i seen ⊎ Has i (j ∷ new)
behind i j seen new (inl (inl e)) = inr (inl e)
behind i j seen new (inl (inr h)) = inl h
behind i j seen new (inr h) = inr (inr h)

module _ (dumps : Json → Text) where
  abbrev pub identities : List Json → List Text
  identities vs = map (pattern_identity dumps) vs

  -- no identity stands twice, nor among those that are seen
  abbrev pub Fresh : List Text → List Json → Type 0
  Fresh seen [] = Unit
  Fresh seen (v ∷ vs) =
      (member (pattern_identity dumps v) seen ≡ false) × Fresh (pattern_identity dumps v ∷ seen) vs

  unseen-Fresh : (seen : List Text) (vs : List Json) → Fresh seen (unseen dumps seen vs)
  unfolding unseen
  unseen-Fresh seen [] = tt
  unseen-Fresh seen (v ∷ vs) = elim (Bool-cases (member (pattern_identity dumps v) seen)) [
    | inl e ↦ rw e (unseen-Fresh seen vs)
    | inr e ↦ rw e (e, unseen-Fresh (pattern_identity dumps v ∷ seen) vs)
  ]

  -- each identity is among the seen ones or is added
  unseen-Has :
      (i : Text) (seen : List Text) (vs : List Json)
      → Has i (identities vs)
      → Has i seen ⊎ Has i (identities (unseen dumps seen vs))
  unfolding unseen
  unseen-Has i seen [] h = inr h
  unseen-Has i seen (v ∷ vs) (inl k) = elim (Bool-cases (member (pattern_identity dumps v) seen)) [
    | inl e ↦ inl (subst (λ t. Has t seen) k ((member_iff (pattern_identity dumps v) seen).0 e))
    | inr e ↦ rw e (inr (inl k))
  ]
  unseen-Has i seen (v ∷ vs) (inr h) = elim (Bool-cases (member (pattern_identity dumps v) seen)) [
    | inl e ↦ rw e (unseen-Has i seen vs h)
    | inr e ↦ rw e (
        behind i (pattern_identity dumps v) seen _
          (unseen-Has i (pattern_identity dumps v ∷ seen) vs h))
  ]

  -- what is among the seen ones is not added
  unseen-none :
      (seen : List Text) (vs : List Json)
      → ((i : Text) → Has i (identities vs) → Has i seen)
      → unseen dumps seen vs ≡ []
  unfolding unseen
  unseen-none seen [] h = refl
  unseen-none seen (v ∷ vs) h =
      rw ((member_iff (pattern_identity dumps v) seen).1 (h (pattern_identity dumps v) (inl refl)))
        (unseen-none seen vs (λ i k. h i (inr k)))

  identities-append :
      (i : Text) (xs ys : List Json)
      → Has i (identities xs) ⊎ Has i (identities ys)
      → Has i (identities (xs ++ ys))
  identities-append i [] ys (inl h) = absurd h
  identities-append i [] ys (inr h) = h
  identities-append i (x ∷ xs) ys (inl (inl e)) = inl e
  identities-append i (x ∷ xs) ys (inl (inr h)) = inr (identities-append i xs ys (inl h))
  identities-append i (x ∷ xs) ys (inr h) = inr (identities-append i xs ys (inr h))

  -- A merge of local and remote patterns.
  pub record MergeOf (local_patterns remote_patterns merged : List Json) : Type 0 where
    pub added : List Json
    pub splits : merged ≡ local_patterns ++ added
    pub fresh : Fresh (identities local_patterns) added
    pub complete : (i : Text) → Has i (identities remote_patterns) → Has i (identities merged)
    pub settled : merge_patterns dumps merged remote_patterns ≡ merged

  -- A merge keeps the local patterns as they are, in front; it adds no identity that is there or is
  -- added already, and leaves out no identity of the remote ones. The same merge once more changes
  -- nothing.
  pub merge_patterns-MergeOf :
      (local_patterns remote_patterns : List Json)
      → MergeOf local_patterns remote_patterns (merge_patterns dumps local_patterns remote_patterns)
  unfolding merge_patterns
  merge_patterns-MergeOf local_patterns remote_patterns =
      let new = unseen dumps (identities local_patterns) remote_patterns in
      let complete = λ (i : Text) (h : Has i (identities remote_patterns)).
        identities-append i local_patterns new
          (unseen-Has i (identities local_patterns) remote_patterns h) in
      record {
        added = new;
        splits = refl;
        fresh = unseen-Fresh (identities local_patterns) remote_patterns;
        complete = complete;
        settled =
            ap (λ vs. (local_patterns ++ new) ++ vs)
              (unseen-none (identities (local_patterns ++ new)) remote_patterns complete)
            ∙ append-nil (local_patterns ++ new);
      }
