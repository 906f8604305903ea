-- ===== src/Compliance/Verdict.antt =====
-- What the verdict of check_compliance means.
use omnicursor.Prelude.{
  ◌≡◌, refl, ap, ◌∙◌, sym, subst, get_or, ◌↔◌, Bool, true, Option-cases, some, List, [], ◌∷◌, any,
  inl, inr, All, Has, Bool-cases, arith,
}
use omnicursor.Text.{Text, lower, contains}
use omnicursor.Skills.{canonical_skill_id}
use omnicursor.Skills.Spelling.{canonical_skill_id_idempotent}
use omnicursor.Compliance.Entry.{Check}
use omnicursor.Compliance.{
  compliance_registry, registry_get, passes, missing_checks, no_entry, assess, assess_entry,
  check_compliance, none_missing,
}

any-Has :
    (f : Text → Bool) (ws : List Text) → (any f ws ≡ true) ↔ ((w : Text) × Has w ws × (f w ≡ true))
any-Has f [] = (λ h. cc (h), λ (w, h, _). absurd h)
any-Has f (v ∷ ws) =
    let (there, back) = any-Has f ws in
    (
      λ h. elim (Bool-cases (f v)) [
        | inl e ↦ (v, inl refl, e)
        | inr e ↦ let (w, k, g) = there (ground (arith, e, h)) in (w, inr k, g)
      ],
      λ (w, k, g). elim k [
        | inl e ↦ let here : f v ≡ true = ap f e ∙ g in ground (arith, here)
        | inr later ↦ let rest = back (w, later, g) in ground (arith, rest)
      ],
    )

-- A keyword of the check occurs in the response, both in lower case.
pub Mentioned : Text → Check → Type 0
Mentioned response c = (w : Text) × Has w c.keywords × (contains (lower response) (lower w) ≡ true)

passes_iff :
    (response : Text) (c : Check) → (passes (lower response) c ≡ true) ↔ Mentioned response c
unfolding passes Mentioned
passes_iff response c = any-Has (λ w. contains (lower response) (lower w)) c.keywords

missing-none :
    (response : Text) (cs : List Check)
    → (missing_checks (lower response) cs ≡ []) ↔ All (Mentioned response) cs
unfolding missing_checks
missing-none response [] = (λ _. tt, λ _. refl)
missing-none response (c ∷ cs) =
    let (there, back) = missing-none response cs in
    elim (Bool-cases (passes (lower response) c)) [
      | inl e ↦ rw e (λ h. ((passes_iff response c).0 e, there h), λ (_, h). back h)
      | inr e ↦ rw e (λ h. cc (h), λ (m, h). let yes = (passes_iff response c).1 m in cc (yes, e))
    ]

none_missing_iff : (ms : List Text) → (none_missing ms ≡ true) ↔ (ms ≡ [])
none_missing_iff [] = (λ _. refl, λ _. refl)
none_missing_iff (m ∷ ms) = (λ h. cc (h), λ h. cc (h))

-- A response is compliant exactly if the skill's canonical identifier has an entry in the registry,
-- and of each check of the entry a keyword occurs in the response, both in lower case.
pub check_compliance_iff :
    (skill_name response : Text)
    → ((check_compliance skill_name response).compliant ≡ true) ↔ (
        (cs : List Check) × (registry_get (canonical_skill_id skill_name) compliance_registry
          ≡ some cs)
        × All (Mentioned response) cs)
unfolding check_compliance assess_entry no_entry assess
check_compliance_iff skill_name response =
    elim (Option-cases (registry_get (canonical_skill_id skill_name) compliance_registry)) [
      | inl e ↦ rw e (λ h. cc (h), λ (cs, f, _). cc (f))
      | inr (cs, e) ↦ rw e (
        λ h. (cs, refl, (missing-none response cs).0 ((none_missing_iff _).0 h)),
        λ (ds, f, m). (none_missing_iff _).1 (
            (missing-none response cs).1 (
              subst (λ (l : List Check). All (Mentioned response) l) (sym (ap (λ o. get_or o []) f))
                m)),
      )
    ]

-- All spellings of a skill's name get the verdict of its canonical identifier.
pub check_compliance-canonical :
    (skill_name response : Text)
    → check_compliance (canonical_skill_id skill_name) response
      ≡ check_compliance skill_name response
unfolding check_compliance
check_compliance-canonical skill_name response =
    ap (λ key. assess_entry key response (registry_get key compliance_registry))
      (canonical_skill_id_idempotent skill_name).1
