-- ===== src/Context/Fetching.antt =====
-- Which patterns are fetched where the intelligence service does not answer.
use omnicursor.Prelude.{
  ℕ, ◌≡◌, refl, ap, ◌∙◌, sym, subst, true, false, not, ◌||◌, Option, none, some, List, [], ◌∷◌,
  ◌++◌, if◌then◌else◌, keep, arith, Bool-cases, inl, inr,
}
use mathlib.Core.List.{append_assoc, append-nil}
use omnicursor.Text.{Text, codes, same, same_iff, same_comm, is_empty}
use omnicursor.Json.{ok}
use omnicursor.Learned.Session.{RawPattern, holds}
use omnicursor.Selection.{dicts}
use omnicursor.Context.Cache.{
  PatternCache, Groups, group_of, cache_get, is_warm, is_stale, add_to_group, domain_key, group_all,
  warm_from_json,
}
use omnicursor.Context.{refreshed, nonempty_or, domain_or_general, narrowed, fetch_patterns}

-- the patterns of a domain, in their order
pub of_key : Text → List RawPattern → List RawPattern
of_key d ps = keep (λ p. same (domain_key p) d) ps

-- what stands under a domain once a pattern is added
one_more : Text → Text → RawPattern → List RawPattern → List RawPattern
one_more k d p ps = if same k d then ps ++ (p ∷ []) else ps

apart : (j k d : Text) → same j k ≡ false → same j d ≡ true → same k d ≡ false
apart j k d e f = subst (λ t. same k t ≡ false) ((same_iff j d).0 f) (same_comm k j ∙ e)

group_of-add_to_group :
    (d k : Text) (p : RawPattern) (groups : Groups)
    → group_of d (add_to_group k p groups) ≡ one_more k d p (group_of d groups)
unfolding group_of add_to_group one_more
group_of-add_to_group d k p [] = refl
group_of-add_to_group d k p ((j, qs) ∷ groups) = elim (Bool-cases (same j k)) [
  | inl e ↦ rw (e, (same_iff j k).0 e) (ground arith)
  | inr e ↦ elim (Bool-cases (same j d)) [
    | inl f ↦ rw (e, f, apart j k d e f) refl
    | inr f ↦ rw (e, f) (group_of-add_to_group d k p groups)
  ]
]

of_key-step :
    (d : Text) (p : RawPattern) (before ps : List RawPattern)
    → one_more (domain_key p) d p before ++ of_key d ps ≡ before ++ of_key d (p ∷ ps)
unfolding one_more of_key
of_key-step d p before ps = elim (Bool-cases (same (domain_key p) d)) [
  | inl e ↦ rw (e, keep) (append_assoc before (p ∷ []) _)
  | inr e ↦ rw (e, keep) refl
]

group_of-group_all :
    (d : Text) (raw : List (Option RawPattern)) (groups : Groups)
    → group_of d (group_all groups raw) ≡ group_of d groups ++ of_key d (dicts raw)
unfolding group_all dicts of_key
group_of-group_all d [] groups = sym (append-nil _)
group_of-group_all d (none ∷ raw) groups = group_of-group_all d raw groups
group_of-group_all d (some p ∷ raw) groups =
    group_of-group_all d raw (add_to_group (domain_key p) p groups)
    ∙ ap (λ qs. qs ++ of_key d (dicts raw)) (group_of-add_to_group d (domain_key p) p groups)
    ∙ of_key-step d p (group_of d groups) (dicts raw)

abbrev warm_cache : List (Option RawPattern) → ℕ → ℕ → PatternCache
warm_cache raw now seconds = record {
  groups = group_all [] raw;
  last_updated_at = some now;
  stale_seconds = seconds;
}

cache_get-warm :
    (raw : List (Option RawPattern)) (now seconds : ℕ) (d : Text)
    → is_empty d ≡ false
    → cache_get d (warm_cache raw now seconds) ≡ of_key d (dicts raw)
unfolding cache_get group_of
cache_get-warm raw now seconds d filled = rw filled (group_of-group_all d raw [])

domain_or_general-warm :
    (raw : List (Option RawPattern)) (now seconds : ℕ) (domain : Text)
    → is_empty domain ≡ false
    → domain_or_general (warm_cache raw now seconds) domain
      ≡ nonempty_or (of_key domain (dicts raw)) (of_key (codes "general") (dicts raw))
unfolding domain_or_general
domain_or_general-warm raw now seconds domain filled =
    rw
      (
        cache_get-warm raw now seconds domain filled,
        cache_get-warm raw now seconds (codes "general") (unfold is_empty in refl),
      )
      refl

-- Where the service does not answer and the cache is cold or stale, what is fetched is of the
-- file: its patterns of the domain, in their order, or where it has none, the general ones, narrowed
-- by the words of the prompt. The cache is then warm, with the present time.
pub fetch_patterns-local :
    (now : ℕ) (raw : List (Option RawPattern)) (cache : PatternCache) (domain : Text)
    → (prompt_words : Option (List Text)) → is_empty domain ≡ false
    → (not (is_warm cache) || is_stale now cache) ≡ true
    → (warm : PatternCache) × (fetch_patterns now none (holds raw) cache domain prompt_words
        ≡ ok (
          narrowed
              (nonempty_or (of_key domain (dicts raw)) (of_key (codes "general") (dicts raw)))
              domain
              prompt_words,
          warm,
        ))
      × (warm.last_updated_at ≡ some now)
unfolding fetch_patterns refreshed warm_from_json
fetch_patterns-local now raw cache domain prompt_words filled old =
    let e = domain_or_general-warm raw now cache.stale_seconds domain filled in
    rw old (
      warm_cache raw now cache.stale_seconds,
      ap (λ ps. ok (narrowed ps domain prompt_words, warm_cache raw now cache.stale_seconds)) e,
      refl,
    )
