-- ===== src/ShellGuard/Later.antt =====
-- The tiers of guard_command behind the hard patterns, case by case.
use omnicursor.Prelude.{
  ◌≡◌, refl, ap, Bool, true, false, ◌&&◌, none, some, List, inl, inr, Bool-cases, and-eq-true,
}
use omnicursor.Text.{Text, codes}
use omnicursor.Json.{Fields, get, Error, Result, ok, raised}
use omnicursor.ShellGuard.{
  World, allow, Response, denied, dod_message, dod_tier, dod_active, dod_match, dod_regex,
  ci_passing, dispatch_tier, dispatch_active, dispatch_message, claim_patterns, soft_tier,
  later_tiers,
}
use omnicursor.ShellGuard.Patterns.{Pattern, Warning, hard_block, soft_warn}
use omnicursor.ShellGuard.Tiers.{Found, soft_tier-cases, Unclaimed, dispatch_loop-Unclaimed}

module _ (w : World) (cfg : Fields) (conversation_id command : Text) where
  -- The transition gate is on, and its expression is found in the command.
  pub record DodGate : Type 0 where
    pub active : dod_active w cfg conversation_id ≡ true
    pub found : dod_match w (dod_regex w cfg) command ≡ true

  -- The reasons for a denial.
  pub data Denial : Type 0 where
    by_pattern : (p : Pattern) → Found hard_block command p → Denial
    by_dod : DodGate → ci_passing (w.session_state conversation_id) ≡ ok false → Denial
    by_claim :
        dispatch_active w cfg conversation_id ≡ true
        → Unclaimed w conversation_id command
            (claim_patterns (get (codes "dispatch_claim_regexes") cfg))
        → Denial

  -- The gate is shut, it denies, or the session file is of a kind that the code does not expect.
  pub data DodOutcome : Type 0 where
    passes : dod_tier w cfg conversation_id command ≡ ok none → DodOutcome
    denies :
        DodGate
        → ci_passing (w.session_state conversation_id) ≡ ok false
        → dod_tier w cfg conversation_id command ≡ ok (some (denied dod_message))
        → DodOutcome
    raises :
        (e : Error)
        → DodGate
        → ci_passing (w.session_state conversation_id) ≡ raised e
        → dod_tier w cfg conversation_id command ≡ raised e
        → DodOutcome

  pub verdict-cases :
      DodGate
      → (passing : Result Bool) → ci_passing (w.session_state conversation_id) ≡ passing
      → DodOutcome
  unfolding dod_tier
  verdict-cases gate (ok true) e = passes (rw (gate.active, gate.found, e) refl)
  verdict-cases gate (ok false) e = denies gate e (rw (gate.active, gate.found, e) refl)
  verdict-cases gate (raised x) e = raises x gate e (rw (gate.active, gate.found, e) refl)

  pub dod_tier-cases : DodOutcome
  dod_tier-cases =
      elim (Bool-cases
        (dod_active w cfg conversation_id && dod_match w (dod_regex w cfg) command)) [
          | inl on ↦
              let both =
                and-eq-true (dod_active w cfg conversation_id)
                  (dod_match w (dod_regex w cfg) command) on in
              verdict-cases (record { active = both.0; found = both.1 })
                (ci_passing (w.session_state conversation_id)) refl
          | inr off ↦ passes (unfold dod_tier in rw off refl)
        ]

  -- An answer of the third tier is a denial for a pattern with no claim.
  pub dispatch_tier-Unclaimed :
      (r : Response)
      → dispatch_tier w cfg conversation_id command ≡ some r
      → (dispatch_active w cfg conversation_id ≡ true)
        × Unclaimed w conversation_id command
            (claim_patterns (get (codes "dispatch_claim_regexes") cfg))
        × (r ≡ denied (dispatch_message (w.claim_path conversation_id)))
  unfolding dispatch_tier
  dispatch_tier-Unclaimed r h = elim (Bool-cases (dispatch_active w cfg conversation_id)) [
    | inl on ↦
        let both =
          dispatch_loop-Unclaimed w conversation_id command
            (claim_patterns (get (codes "dispatch_claim_regexes") cfg)) r (rw on at h) in
        (on, both.0, both.1)
    | inr off ↦ cc (off, h)
  ]

  pub soft_tier-allow : (ss : List Warning) → (soft_tier command ss).permission ≡ allow
  soft_tier-allow ss = elim (soft_tier-cases command ss) [
    | inl e ↦ ap (λ (x : Response). x.permission) e
    | inr (s, f, e) ↦ ap (λ (x : Response). x.permission) e
  ]

  pub later_tiers-by_dod_tier :
      (q : Response)
      → dod_tier w cfg conversation_id command ≡ ok (some q)
      → later_tiers w cfg conversation_id command ≡ ok q
  unfolding later_tiers
  later_tiers-by_dod_tier q d = rw d refl

  pub later_tiers-by_dispatch :
      (q : Response)
      → dod_tier w cfg conversation_id command ≡ ok none
      → dispatch_tier w cfg conversation_id command ≡ some q
      → later_tiers w cfg conversation_id command ≡ ok q
  unfolding later_tiers
  later_tiers-by_dispatch q d e = rw (d, e) refl

  pub later_tiers-by_soft :
      dod_tier w cfg conversation_id command ≡ ok none
      → dispatch_tier w cfg conversation_id command ≡ none
      → later_tiers w cfg conversation_id command ≡ ok (soft_tier command soft_warn)
  unfolding later_tiers
  later_tiers-by_soft d e = rw (d, e) refl

  pub later_tiers-by_raise :
      (e : Error)
      → dod_tier w cfg conversation_id command ≡ raised e
      → later_tiers w cfg conversation_id command ≡ raised e
  unfolding later_tiers
  later_tiers-by_raise e d = rw d refl

  pub same_permission :
      (q r : Response)
      → later_tiers w cfg conversation_id command ≡ ok q
      → later_tiers w cfg conversation_id command ≡ ok r
      → q.permission ≡ r.permission
  same_permission q r g h =
      let same_answer : q ≡ r = cc (g, h) in ap (λ (x : Response). x.permission) same_answer
