-- ===== src/ShellHook/Tests.antt =====
-- Runs of shell-guard.py, and the theorems about it at inputs.
use omnicursor.Prelude.{◌≡◌, refl, true, false, none, some, List, [], ◌∷◌, All}
use omnicursor.Text.{Text, codes, same, is_empty, is_space, is_word, to_lower}
use omnicursor.Json.{
  Json, obj, str, num, end, field, get, unreadable, undecodable, holds, FileJson, Result, ok,
}
use omnicursor.Regex.{re_search, runs}
use omnicursor.Hooks.{get_of, read_session_context, correlation_of}
use omnicursor.ShellGuard.{
  World, deny, Response, denied, allowed, guard_command, load_dod_config, defaults, first_hard,
}
use omnicursor.ShellGuard.Patterns.{hard_block}
use omnicursor.ShellHook.{HookStep, answered, or_allow, shell_main}
use omnicursor.ShellHook.Answer.{
  answers, OneAnswer, answers-shell_main, Audited, shell_main-Audited,
}

abbrev world : World
world = record {
  environ = λ name. none;
  session_state = λ id. holds (Json.obj end);
  claim_path = λ id. id;
  claim_exists = λ id. false;
  search = λ pattern command. none;
  py_str = λ v. [];
}

-- a session file that cannot be decoded, or holds a number, lets every command pass
run_shell : FileJson → Text → List HookStep
unfolding shell_main or_allow correlation_of read_session_context get_of
run_shell current command = shell_main world unreadable current true [] command

undecodable_session : run_shell undecodable (codes "rm -rf /") ≡ answered allowed ∷ []
unfolding run_shell
undecodable_session = refl

number_session : run_shell (holds (num 3)) (codes "rm -rf /") ≡ answered allowed ∷ []
unfolding run_shell
number_session = refl

answers-shell_main_example :
    OneAnswer world unreadable undecodable true []
      (codes "mkfs /dev/sda")
      (answers (shell_main world unreadable undecodable true [] (codes "mkfs /dev/sda")))
answers-shell_main_example =
    answers-shell_main world unreadable undecodable true [] (codes "mkfs /dev/sda")

-- the configuration without a file
run_guard : Text → Result Response
unfolding guard_command load_dod_config defaults first_hard hard_block re_search runs is_empty
    is_space is_word to_lower same
run_guard command = guard_command world (some unreadable) [] command

abbrev root_denial : Response
root_denial = denied (
    codes
      "Blocked: command matches a destructive pattern (rm\\s+-[^\\s]*r[^\\s]*f[^\\s]*\\s+/\\s*$)")

root_denied : run_guard (codes "sudo rm -rf /") ≡ ok root_denial
unfolding run_guard
root_denied = refl

abbrev correlated : FileJson
correlated = holds (obj (field (codes "latest_correlation_id") (str (codes "k")) end))

shell_main-Audited_example :
    All
      (Audited (str (codes "k")) (codes "sudo rm -rf /") deny)
      (shell_main world unreadable correlated true [] (codes "sudo rm -rf /"))
shell_main-Audited_example =
    shell_main-Audited world unreadable correlated [] (codes "sudo rm -rf /") (str (codes "k"))
      root_denial (unfold correlation_of read_session_context get_of get same in refl)
      (unfold run_guard in root_denied)
