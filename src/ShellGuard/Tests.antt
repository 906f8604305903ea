-- ===== src/ShellGuard/Tests.antt =====
-- Runs of shell_guard.py, and the theorems about it at inputs.
use omnicursor.Prelude.{◌≡◌, refl, true, false, Option, none, some, [], ◌++◌, ◌↔◌, Has}
use omnicursor.Text.{Text, codes, same, is_empty, lower, is_word, is_space, to_lower}
use omnicursor.Json.{
  Json, bool, str, arr, nil, Fields, end, field, get, truthy, Result, ok, FileJson, holds, update,
  raised,
}
use omnicursor.Regex.{re_search, runs}
use omnicursor.ShellGuard.{
  World, Permission, deny, Response, denied, allowed, warned, load_dod_config, first_hard,
  hard_message, dod_tier, dod_active, dod_match, dod_regex, ci_passing, dispatch_tier,
  dispatch_active, dispatch_loop, soft_tier, soft_message, later_tiers, guard_command, dod_message,
  not_bypassed, defaults, force_list,
}
use omnicursor.ShellGuard.Patterns.{Pattern, hard_block, soft_warn}
use omnicursor.ShellGuard.Later.{Denial}
use omnicursor.ShellGuard.Denials.{guard_denies_iff}
use omnicursor.ShellGuard.Answers.{
  no_verify_denied, guard_answers, Answer, guard_bypassed, table_answer,
}

-- the configured expressions are found in every command; the session has no state
abbrev quiet_world : World
quiet_world = record {
  environ = λ name. none;
  session_state = λ id. holds (Json.obj end);
  claim_path = λ id. codes "/s/" ++ id;
  claim_exists = λ id. false;
  search = λ pattern command. some true;
  py_str = λ v. [];
}

abbrev gated : Option FileJson
gated = some (
    holds (
      Json.obj (
        field (codes "dod_enabled") (bool true)
          (field (codes "dod_linear_transition_regex") (str (codes "done")) end))))

run_guard : Option FileJson → Text → Text → Result Response
unfolding guard_command load_dod_config defaults force_list update get first_hard hard_block
    re_search runs is_empty is_space is_word to_lower later_tiers dod_tier dod_active dod_regex
    dod_match dispatch_tier dispatch_active dispatch_loop soft_tier soft_warn ci_passing truthy same
    dod_message not_bypassed
run_guard config conversation_id command = guard_command quiet_world config conversation_id command

abbrev permission_of : Result Response → Option Permission
permission_of (ok r) = some r.permission
permission_of (raised e) = none

rm_root_denied : permission_of (run_guard none [] (codes "sudo rm -rf /")) ≡ some deny
unfolding run_guard
rm_root_denied = refl

rm_tmp_warned :
    run_guard none [] (codes "rm -rf ./tmp")
    ≡ ok (warned (soft_message (codes "Recursive force removal — verify the target path")))
unfolding run_guard
rm_tmp_warned = refl

gate_denies : run_guard gated (codes "c1") (codes "move to done") ≡ ok (denied dod_message)
unfolding run_guard
gate_denies = refl

plain_allowed : run_guard gated [] (codes "ls -la") ≡ ok allowed
unfolding run_guard
plain_allowed = refl

abbrev gated_cfg : Fields
gated_cfg = field (codes "dod_enabled") (bool true) (
    field (codes "dod_linear_transition_regex") (str (codes "done")) (
      field (codes "dispatch_enabled") (bool false)
        (field (codes "dispatch_claim_regexes") (arr nil) end)))

gated_loads : load_dod_config gated ≡ ok gated_cfg
unfolding run_guard
gated_loads = refl

guard_denies_iff_example :
    (deny ≡ deny) ↔ Denial quiet_world gated_cfg (codes "c1") (codes "move to done")
guard_denies_iff_example =
    guard_denies_iff quiet_world gated_cfg (codes "c1") (codes "move to done") gated
      (denied dod_message) (unfold is_empty in refl) gated_loads (unfold run_guard in refl)

no_verify_denied_example :
    (q : Pattern) × Has q hard_block
    × (guard_command quiet_world none [] (codes "git commit --No-Verify -m x")
        ≡ ok (denied (hard_message q)))
no_verify_denied_example =
    no_verify_denied quiet_world defaults [] (codes "git commit ") (codes "--No-Verify")
      (codes " -m x") none (unfold lower in refl) (unfold load_dod_config in refl)

guard_answers_example :
    Answer quiet_world gated_cfg
      (codes "c1")
      (codes "git push -f")
      (guard_command quiet_world gated (codes "c1") (codes "git push -f"))
guard_answers_example =
    guard_answers quiet_world gated_cfg (codes "c1") (codes "git push -f") gated
      (unfold is_empty in refl) gated_loads

abbrev bypassing_world : World
bypassing_world = record quiet_world { environ = λ name. some (codes "1") }

guard_bypassed_example :
    guard_command bypassing_world gated (codes "c1") (codes "move to done")
    ≡ ok (
        table_answer
          (first_hard (codes "move to done") hard_block)
          (soft_tier (codes "move to done") soft_warn))
guard_bypassed_example =
    guard_bypassed bypassing_world gated_cfg (codes "c1") (codes "move to done") gated
      (unfold is_empty in refl) gated_loads refl refl
