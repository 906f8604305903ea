-- ===== src/ShellGuard/Denials.antt =====
-- When guard_command denies.
use omnicursor.Prelude.{
  ◌≡◌, refl, ap, ◌∙◌, sym, false, Option, none, some, ◌↔◌, inl, inr, Option-cases,
}
use omnicursor.Text.{Text, codes, is_empty}
use omnicursor.Json.{Fields, get, ok, FileJson}
use omnicursor.ShellGuard.{
  World, deny, Response, denied, load_dod_config, first_hard, hard_message, dod_message, dod_tier,
  dispatch_tier, dispatch_message, claim_patterns, soft_tier, later_tiers, tiers, guard_command,
}
use omnicursor.ShellGuard.Patterns.{Pattern, hard_block, soft_warn}
use omnicursor.ShellGuard.Tiers.{Found, first_hard-Found, first_hard_total, dispatch_loop_denies}
use omnicursor.ShellGuard.Later.{
  Denial, by_pattern, by_dod, by_claim, passes, denies, raises, dod_tier-cases,
  dispatch_tier-Unclaimed, soft_tier-allow, later_tiers-by_dod_tier, later_tiers-by_dispatch,
  later_tiers-by_soft, later_tiers-by_raise, same_permission,
}

module _ (w : World) (cfg : Fields) (conversation_id command : Text) where
  later_tiers-Denial :
      (r : Response)
      → later_tiers w cfg conversation_id command ≡ ok r
      → r.permission ≡ deny
      → Denial w cfg conversation_id command
  later_tiers-Denial r h d = elim (dod_tier-cases w cfg conversation_id command) [
    | denies gate e _ ↦ by_dod gate e
    | raises x gate e shown ↦ cc (later_tiers-by_raise w cfg conversation_id command x shown, h)
    | passes shown ↦ elim (Option-cases (dispatch_tier w cfg conversation_id command)) [
      | inr (q, e) ↦
          let (on, u, shown) = dispatch_tier-Unclaimed w cfg conversation_id command q e in
          by_claim on u
      | inl e ↦ cc (
        soft_tier-allow w cfg conversation_id command soft_warn,
        same_permission w cfg conversation_id command (soft_tier command soft_warn) r
            (later_tiers-by_soft w cfg conversation_id command shown e) h,
        d,
      )
    ]
  ]

  -- Each reason, with no hard pattern found before it, denies.
  later_tiers-denies :
      (r : Response)
      → later_tiers w cfg conversation_id command ≡ ok r
      → Denial w cfg conversation_id command
      → first_hard command hard_block ≡ none
      → r.permission ≡ deny
  later_tiers-denies r h (by_pattern p f) e =
      let found = first_hard_total command hard_block p f in cc (e, found.1)
  later_tiers-denies r h (by_dod gate e) _ =
      same_permission w cfg conversation_id command r (denied dod_message) h (
        later_tiers-by_dod_tier w cfg conversation_id command (denied dod_message)
          (unfold dod_tier in rw (gate.active, gate.found, e) refl))
  later_tiers-denies r h (by_claim on u) _ =
      let answer = denied (dispatch_message (w.claim_path conversation_id)) in
      let shown : dispatch_tier w cfg conversation_id command ≡ some answer =
        unfold dispatch_tier in
        rw on (
          dispatch_loop_denies w conversation_id command
            (claim_patterns (get (codes "dispatch_claim_regexes") cfg)) u) in
      elim (dod_tier-cases w cfg conversation_id command) [
        | denies gate e passed ↦
            same_permission w cfg conversation_id command r (denied dod_message) h
              (later_tiers-by_dod_tier w cfg conversation_id command (denied dod_message) passed)
        | raises x gate e passed ↦
            cc (later_tiers-by_raise w cfg conversation_id command x passed, h)
        | passes passed ↦
            same_permission w cfg conversation_id command r answer h
              (later_tiers-by_dispatch w cfg conversation_id command answer passed shown)
      ]

  pub guard_command_lem :
      (config : Option FileJson)
      → is_empty command ≡ false
      → load_dod_config config ≡ ok cfg
      → guard_command w config conversation_id command
        ≡ tiers w cfg conversation_id command (first_hard command hard_block)
  unfolding guard_command
  guard_command_lem config nonempty loaded = rw (nonempty, loaded) refl

  -- On a command that is not empty, with a configuration that loads, an answer of guard_command
  -- is a denial exactly for one of three reasons: a hard pattern occurs; the transition gate is
  -- on, its expression is found and the session has no passing CI; a claim pattern is found and
  -- there is no claim.
  pub guard_denies_iff :
      (config : Option FileJson) (r : Response)
      → is_empty command ≡ false
      → load_dod_config config ≡ ok cfg
      → guard_command w config conversation_id command ≡ ok r
      → (r.permission ≡ deny) ↔ Denial w cfg conversation_id command
  guard_denies_iff config r nonempty loaded answered =
      let run = guard_command_lem config nonempty loaded in
      elim (Option-cases (first_hard command hard_block)) [
        | inl clear ↦
            let later : later_tiers w cfg conversation_id command ≡ ok r =
              cc (run, answered, ap (λ o. tiers w cfg conversation_id command o) clear) in
            (later_tiers-Denial r later, λ d. later_tiers-denies r later d clear)
        | inr (p, found) ↦
            let blocked : denied (hard_message p) ≡ r =
              cc (run, answered, ap (λ o. tiers w cfg conversation_id command o) found) in
            (
              λ _. by_pattern p (first_hard-Found command hard_block p found),
              λ _. sym (ap (λ (x : Response). x.permission) blocked),
            )
      ]

  -- A hard pattern that occurs in the command denies it, whatever the environment, the session
  -- files and the configuration hold, as long as the configuration file loads.
  pub hard_pattern_denied :
      (config : Option FileJson) (p : Pattern)
      → is_empty command ≡ false
      → load_dod_config config ≡ ok cfg
      → Found hard_block command p
      → (q : Pattern) × Found hard_block command q
        × (guard_command w config conversation_id command ≡ ok (denied (hard_message q)))
  hard_pattern_denied config p nonempty loaded f =
      let (q, found) = first_hard_total command hard_block p f in
      (
        q,
        first_hard-Found command hard_block q found,
        guard_command_lem config nonempty loaded
            ∙ ap (λ o. tiers w cfg conversation_id command o) found,
      )
