-- ===== src/Compliance/Tests.antt =====
-- Runs of compliance.py and skills.py, and the theorems about them at inputs.
use omnicursor.Prelude.{◌≡◌, refl, ◌↔◌, true, false, some, List, [], ◌∷◌, All}
use omnicursor.Text.{
  Text, codes, same, strip, lstrip, rstrip, is_space, is_empty, starts_with, lower, contains,
}
use omnicursor.Skills.{
  skill_id_prefix, legacy_colon_prefix, skill_slug, slug_of, canonical_skill_id,
}
use omnicursor.Skills.Spelling.{canonical_skill_id_idempotent}
use omnicursor.Compliance.Entry.{Check}
use omnicursor.Compliance.Workflows.{recap_checks}
use omnicursor.Compliance.{
  ComplianceResult, compliance_registry, registry_get, check_compliance, assess_entry, assess,
  missing_checks, run_checks, set_check, passes, no_entry,
}
use omnicursor.Compliance.Verdict.{Mentioned, check_compliance_iff}

run_check : Text → Text → ComplianceResult
unfolding check_compliance assess_entry assess no_entry missing_checks run_checks set_check passes
    registry_get compliance_registry recap_checks canonical_skill_id skill_slug slug_of strip lstrip
    rstrip is_space is_empty starts_with skill_id_prefix legacy_colon_prefix same lower contains
run_check skill_name response = check_compliance skill_name response

recap_complies :
    (run_check (codes " onex:recap") (codes "Outcome: 2 Files Edited, next step")).compliant ≡ true
unfolding run_check
recap_complies = refl

recap_misses :
    (run_check (codes "recap") (codes "Outcome: next step")).missing
    ≡ codes "lists_files_edited" ∷ []
unfolding run_check
recap_misses = refl

unknown_fails : run_check (codes "x") (codes "") ≡ record {
  skill_name = codes "onex-x";
  checks = [];
  compliant = false;
  missing = codes "no_registry_entry_for_onex-x" ∷ [];
}
unfolding run_check
unknown_fails = refl

canonical_skill_id_idempotent_example :
    (skill_slug (canonical_skill_id (codes "onex:recap")) ≡ skill_slug (codes "onex:recap"))
    × (canonical_skill_id (canonical_skill_id (codes "onex:recap"))
        ≡ canonical_skill_id (codes "onex:recap"))
canonical_skill_id_idempotent_example = canonical_skill_id_idempotent (codes "onex:recap")

check_compliance_iff_example :
    ((check_compliance (codes "recap") (codes "success")).compliant ≡ true) ↔ (
      (cs : List Check) × (registry_get (canonical_skill_id (codes "recap")) compliance_registry
        ≡ some cs)
      × All (Mentioned (codes "success")) cs)
check_compliance_iff_example = check_compliance_iff (codes "recap") (codes "success")
