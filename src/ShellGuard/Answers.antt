-- ===== src/ShellGuard/Answers.antt =====
-- The other answers of guard_command: its warnings, what it raises, and one pattern in full.
use omnicursor.Prelude.{
  ◌≡◌, refl, ap, ◌∙◌, true, false, Option, none, some, [], ◌∷◌, inl, inr, arith, Option-cases, Has,
  ◌++◌,
}
use omnicursor.Text.{Text, codes, same, is_empty, lower}
use omnicursor.Json.{Fields, get, Error, Result, ok, raised, FileJson}
use omnicursor.Regex.{lit_i}
use omnicursor.Regex.Search.{re_search_iff, re_search_inside, lit_i-Matches}
use omnicursor.ShellGuard.{
  World, Response, allowed, denied, warned, load_dod_config, first_hard, hard_message, dod_message,
  dod_tier, ci_passing, dispatch_tier, soft_tier, soft_message, dispatch_active, dispatch_message,
  claim_patterns, dod_active, later_tiers, tiers, guard_command,
}
use omnicursor.ShellGuard.Patterns.{Pattern, Warning, hard_block, soft_warn}
use omnicursor.ShellGuard.Tiers.{Found, first_hard-Found, Warns, soft_tier-cases, Unclaimed}
use omnicursor.ShellGuard.Later.{
  DodGate, passes, denies, raises, dod_tier-cases, later_tiers-by_dod_tier, dispatch_tier-Unclaimed,
  later_tiers-by_raise, later_tiers-by_dispatch, later_tiers-by_soft,
}
use omnicursor.ShellGuard.Denials.{guard_command_lem, hard_pattern_denied}

abbrev no_verify : Pattern
no_verify = record { source = codes "--no-verify"; regex = lit_i (codes "--no-verify") }

no_verify_listed : Has no_verify hard_block
unfolding hard_block
no_verify_listed = inr (inr (inr (inr (inr (inr (inl refl))))))

word-ne-empty :
    (pre word post : Text)
    → is_empty (lower word) ≡ false
    → is_empty (pre ++ (word ++ post)) ≡ false
unfolding is_empty lower
word-ne-empty [] [] post h = cc
word-ne-empty [] (c ∷ word) post h = refl
word-ne-empty (c ∷ pre) word post h = refl

-- A command that holds `--no-verify`, in any case and at any place, is denied, whatever the
-- environment, the session files and the loaded configuration are.
pub no_verify_denied :
    (w : World) (cfg : Fields) (conversation_id pre word post : Text) (config : Option FileJson)
    → lower word ≡ codes "--no-verify"
    → load_dod_config config ≡ ok cfg
    → (q : Pattern) × Has q hard_block
      × (guard_command w config conversation_id (pre ++ (word ++ post))
          ≡ ok (denied (hard_message q)))
no_verify_denied w cfg conversation_id pre word post config spelled loaded =
    let command = pre ++ (word ++ post) in
    let nonempty = word-ne-empty pre word post (unfold is_empty in rw spelled refl) in
    let hit =
      re_search_inside (lit_i (codes "--no-verify")) pre word post
        (λ prev. lit_i-Matches (codes "--no-verify") word prev post (unfold lower in spelled)) in
    let found : Found hard_block command no_verify = record {
      listed = no_verify_listed;
      occurs = (re_search_iff (lit_i (codes "--no-verify")) command).0 hit;
    } in
    let (q, f, answer) =
      hard_pattern_denied w cfg conversation_id command config no_verify nonempty loaded found in
    (q, f.listed, answer)

module _ (w : World) (cfg : Fields) (conversation_id command : Text)
    (answer : Result Response) where
  -- The answers of guard_command, each with what it rests on.
  pub data Answer : Type 0 where
    blocked :
        (p : Pattern) → Found hard_block command p → answer ≡ ok (denied (hard_message p)) → Answer
    undone :
        DodGate w cfg conversation_id command
        → ci_passing (w.session_state conversation_id) ≡ ok false
        → answer ≡ ok (denied dod_message)
        → Answer
    failed :
        (e : Error)
        → DodGate w cfg conversation_id command
        → ci_passing (w.session_state conversation_id) ≡ raised e
        → answer ≡ raised e
        → Answer
    unclaimed :
        dispatch_active w cfg conversation_id ≡ true
        → Unclaimed w conversation_id command
            (claim_patterns (get (codes "dispatch_claim_regexes") cfg))
        → answer ≡ ok (denied (dispatch_message (w.claim_path conversation_id)))
        → Answer
    advised :
        (s : Warning)
        → Warns soft_warn command s
        → answer ≡ ok (warned (soft_message s.reason))
        → Answer
    cleared : answer ≡ ok allowed → Answer

module _ (w : World) (cfg : Fields) (conversation_id command : Text) where
  soft-Answer :
      (answer : Result Response)
      → answer ≡ ok (soft_tier command soft_warn)
      → Answer w cfg conversation_id command answer
  soft-Answer answer e = elim (soft_tier-cases command soft_warn) [
    | inl clear ↦ cleared (e ∙ ap ok clear)
    | inr (s, found, shown) ↦ advised s found (e ∙ ap ok shown)
  ]

  dispatch-Answer :
      (answer : Result Response) (r : Response)
      → dispatch_tier w cfg conversation_id command ≡ some r
      → answer ≡ ok r
      → Answer w cfg conversation_id command answer
  dispatch-Answer answer r h e =
      let (on, u, shown) = dispatch_tier-Unclaimed w cfg conversation_id command r h in
      unclaimed on u (e ∙ ap ok shown)

  later-Answer : Answer w cfg conversation_id command (later_tiers w cfg conversation_id command)
  later-Answer = elim (dod_tier-cases w cfg conversation_id command) [
    | denies gate e shown ↦
        undone gate e
          (later_tiers-by_dod_tier w cfg conversation_id command (denied dod_message) shown)
    | raises x gate e shown ↦
        failed x gate e (later_tiers-by_raise w cfg conversation_id command x shown)
    | passes shown ↦ elim (Option-cases (dispatch_tier w cfg conversation_id command)) [
      | inl e ↦ soft-Answer _ (later_tiers-by_soft w cfg conversation_id command shown e)
      | inr (r, e) ↦
          dispatch-Answer _ r e (later_tiers-by_dispatch w cfg conversation_id command r shown e)
    ]
  ]

  -- On a command that is not empty, with a configuration that loads, guard_command gives one of
  -- six answers: a denial for a hard pattern that occurs; a denial by the transition gate; the
  -- error that the session file raises behind the open gate; a denial for a missing claim; a
  -- warning whose pattern occurs; or a plain `allow`. It never asks.
  pub guard_answers :
      (config : Option FileJson)
      → is_empty command ≡ false
      → load_dod_config config ≡ ok cfg
      → Answer w cfg conversation_id command (guard_command w config conversation_id command)
  guard_answers config nonempty loaded =
      let run = guard_command_lem w cfg conversation_id command config nonempty loaded in
      elim (Option-cases (first_hard command hard_block)) [
        | inl clear ↦ rw (run ∙ ap (λ o. tiers w cfg conversation_id command o) clear) later-Answer
        | inr (p, found) ↦
            blocked p (first_hard-Found command hard_block p found)
              (run ∙ ap (λ o. tiers w cfg conversation_id command o) found)
      ]

  quiet_tiers :
      dod_active w cfg conversation_id ≡ false
      → dispatch_active w cfg conversation_id ≡ false
      → later_tiers w cfg conversation_id command ≡ ok (soft_tier command soft_warn)
  quiet_tiers d e =
      later_tiers-by_soft w cfg conversation_id command (unfold dod_tier in rw d refl)
        (unfold dispatch_tier in rw e refl)

  dod_active-bypassed :
      w.environ (codes "OMNICURSOR_DOD_BYPASS") ≡ some (codes "1")
      → dod_active w cfg conversation_id ≡ false
  unfolding dod_active same
  dod_active-bypassed e = rw e (ground arith)

  dispatch_active-bypassed :
      w.environ (codes "OMNICURSOR_DISPATCH_BYPASS") ≡ some (codes "1")
      → dispatch_active w cfg conversation_id ≡ false
  unfolding dispatch_active same
  dispatch_active-bypassed e = rw e (ground arith)

-- What the pattern tables alone answer.
pub table_answer : Option Pattern → Response → Response
table_answer (some p) r = denied (hard_message p)
table_answer none r = r

module _ (w : World) (cfg : Fields) (conversation_id command : Text) where
  tiers-quiet :
      (o : Option Pattern)
      → dod_active w cfg conversation_id ≡ false
      → dispatch_active w cfg conversation_id ≡ false
      → tiers w cfg conversation_id command o ≡ ok (table_answer o (soft_tier command soft_warn))
  unfolding table_answer
  tiers-quiet none d e = quiet_tiers w cfg conversation_id command d e
  tiers-quiet (some p) d e = refl

  -- With both bypass variables set to "1" the answer does not depend on the session files, the
  -- claims or the configuration, as long as it loads: it is that of the pattern tables alone.
  pub guard_bypassed :
      (config : Option FileJson)
      → is_empty command ≡ false
      → load_dod_config config ≡ ok cfg
      → w.environ (codes "OMNICURSOR_DOD_BYPASS") ≡ some (codes "1")
      → w.environ (codes "OMNICURSOR_DISPATCH_BYPASS") ≡ some (codes "1")
      → guard_command w config conversation_id command
        ≡ ok (table_answer (first_hard command hard_block) (soft_tier command soft_warn))
  guard_bypassed config nonempty loaded dod dispatch =
      guard_command_lem w cfg conversation_id command config nonempty loaded
      ∙ tiers-quiet (first_hard command hard_block)
          (dod_active-bypassed w cfg conversation_id command dod)
          (dispatch_active-bypassed w cfg conversation_id command dispatch)
