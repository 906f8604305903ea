-- ===== src/Skills/Spelling.antt =====
-- The spellings of a skill's name, in skills.py.
use omnicursor.Prelude.{
  ℕ, zero, suc, ◌≡◌, refl, ap, ◌∙◌, ◌&&◌, [], ◌∷◌, ◌++◌, drop, length, inl, inr, Bool-cases,
}
use omnicursor.Text.{Text, starts_with, strip, lstrip, rstrip, is_space, is_empty}
use omnicursor.Skills.{
  skill_id_prefix, legacy_colon_prefix, slug_of, skill_slug, canonical_skill_id,
}

rstrip-rstrip : (s : Text) → rstrip (rstrip s) ≡ rstrip s
unfolding rstrip
rstrip-rstrip [] = refl
rstrip-rstrip (c ∷ s) = elim (Bool-cases (is_space c && is_empty (rstrip s))) [
  | inl e ↦ rw e refl
  | inr e ↦ rw e (rw (rstrip-rstrip s, e) refl)
]

tail : Text → Text
tail [] = []
tail (c ∷ s) = s

rstrip-tail : (c : ℕ) (s : Text) → rstrip (c ∷ s) ≡ c ∷ s → rstrip s ≡ s
unfolding rstrip tail
rstrip-tail c s h = elim (Bool-cases (is_space c && is_empty (rstrip s))) [
  | inl e ↦ let empty : [] ≡ c ∷ s = rw e at h in cc (empty)
  | inr e ↦ let kept : c ∷ rstrip s ≡ c ∷ s = rw e at h in ap tail kept
]

rstrip-drop : (n : ℕ) (s : Text) → rstrip s ≡ s → rstrip (drop n s) ≡ drop n s
rstrip-drop zero s h = h
rstrip-drop (suc n) [] h = h
rstrip-drop (suc n) (c ∷ s) h = rstrip-drop n s (rstrip-tail c s h)

slug_of-rstrip : (s : Text) → rstrip s ≡ s → rstrip (slug_of s) ≡ slug_of s
unfolding slug_of
slug_of-rstrip s h = elim (Bool-cases (starts_with s legacy_colon_prefix)) [
  | inl e ↦ rw e (rstrip-drop (length legacy_colon_prefix) s h)
  | inr e ↦ elim (Bool-cases (starts_with s skill_id_prefix)) [
    | inl f ↦ rw (e, f) (rstrip-drop (length skill_id_prefix) s h)
    | inr f ↦ rw (e, f) h
  ]
]

skill_slug-rstrip : (x : Text) → rstrip (skill_slug x) ≡ skill_slug x
unfolding skill_slug strip
skill_slug-rstrip x = slug_of-rstrip (rstrip (lstrip x)) (rstrip-rstrip (lstrip x))

strip-prefixed : (t : Text) → rstrip t ≡ t → strip (skill_id_prefix ++ t) ≡ skill_id_prefix ++ t
unfolding strip lstrip rstrip is_space skill_id_prefix
strip-prefixed t h = rw h refl

strip-legacy :
    (t : Text) → rstrip t ≡ t → strip (legacy_colon_prefix ++ t) ≡ legacy_colon_prefix ++ t
unfolding strip lstrip rstrip is_space legacy_colon_prefix
strip-legacy t h = rw h refl

slug_of-prefixed : (t : Text) → slug_of (skill_id_prefix ++ t) ≡ t
unfolding slug_of skill_id_prefix legacy_colon_prefix starts_with
slug_of-prefixed t = refl

slug_of-legacy : (t : Text) → slug_of (legacy_colon_prefix ++ t) ≡ t
unfolding slug_of skill_id_prefix legacy_colon_prefix starts_with
slug_of-legacy t = refl

slug-prefixed : (t : Text) → rstrip t ≡ t → skill_slug (skill_id_prefix ++ t) ≡ t
unfolding skill_slug
slug-prefixed t h = ap slug_of (strip-prefixed t h) ∙ slug_of-prefixed t

slug-legacy : (t : Text) → rstrip t ≡ t → skill_slug (legacy_colon_prefix ++ t) ≡ t
unfolding skill_slug
slug-legacy t h = ap slug_of (strip-legacy t h) ∙ slug_of-legacy t

-- `canonical_skill_id` is idempotent, and its result has the same slug as the name it came from,
-- whatever the spelling of that name.
pub canonical_skill_id_idempotent :
    (x : Text)
    → (skill_slug (canonical_skill_id x) ≡ skill_slug x)
      × (canonical_skill_id (canonical_skill_id x) ≡ canonical_skill_id x)
unfolding canonical_skill_id
canonical_skill_id_idempotent x =
    let e = slug-prefixed (skill_slug x) (skill_slug-rstrip x) in
    (e, ap (λ t. skill_id_prefix ++ t) e)

-- A slug without white space at its end has one canonical identifier in the two spellings with a
-- prefix: the one that is the prefix "onex-" and the slug.
pub canonical_skill_id_spellings :
    (slug : Text)
    → rstrip slug ≡ slug
    → (canonical_skill_id (legacy_colon_prefix ++ slug) ≡ skill_id_prefix ++ slug)
      × (canonical_skill_id (skill_id_prefix ++ slug) ≡ skill_id_prefix ++ slug)
unfolding canonical_skill_id
canonical_skill_id_spellings slug h = (
  ap (λ t. skill_id_prefix ++ t) (slug-legacy slug h),
  ap (λ t. skill_id_prefix ++ t) (slug-prefixed slug h),
)
