-- ===== src/Hooks/Tests.antt =====
-- Runs of _common.py, and the theorems about it at inputs.
use omnicursor.Prelude.{◌≡◌, refl, ◌↔◌, true, false, Option, some, [], ◌∷◌, map, Has}
use omnicursor.Text.{Text, codes, same, is_empty, strip, lstrip, rstrip, lower, replace_char}
use omnicursor.Text.Token.{name_token, alias_of}
use omnicursor.Json.{end, field, num, obj, holds, ok}
use omnicursor.Hooks.{normalize_hook_name, hooks_disabled, hook_enabled, Store, merge_session_json}
use omnicursor.Hooks.Mask.{normalize_hook_name-idempotent, hook_enabled_iff}
use omnicursor.Hooks.SessionFile.{Merged, merge_session_json-Merged}

run_name : Text → Text
unfolding normalize_hook_name name_token alias_of same strip lstrip rstrip is_empty lower
    replace_char
run_name s = normalize_hook_name s

spelled : run_name (codes " Post_Tool_Use ") ≡ codes "tool"
unfolding run_name
spelled = refl

normalize_hook_name-idempotent_example :
    normalize_hook_name (normalize_hook_name (codes "SessionStart"))
    ≡ normalize_hook_name (codes "SessionStart")
normalize_hook_name-idempotent_example = normalize_hook_name-idempotent (codes "SessionStart")

-- every variable is a mask of two names
abbrev masked : Text → Option Text
masked name = some (codes "prompt,Shell_Guard")

hook_enabled_iff_example : (hook_enabled masked false (codes "shell") ≡ true) ↔ (
    (hooks_disabled masked false ≡ false)
    × Has
        (normalize_hook_name (codes "shell"))
        (map normalize_hook_name (codes "prompt" ∷ codes "Shell_Guard" ∷ [])))
hook_enabled_iff_example =
    hook_enabled_iff masked false (codes "shell") (codes "prompt") (codes "Shell_Guard" ∷ [])
      (unfold omnicursor.Text.join in refl) (refl, (refl, tt))
      (unfold strip lstrip rstrip is_empty in (refl, (refl, tt)))

abbrev sessions : Store
sessions id = holds (obj (field (codes "a") (num 1) end))

merge_session_json-Merged_example :
    (after : Store) × (merge_session_json sessions true (codes "c") (field (codes "b") (num 2) end)
      ≡ ok after)
    × Merged sessions after (codes "c") (field (codes "b") (num 2) end)
merge_session_json-Merged_example =
    merge_session_json-Merged sessions (codes "c") (field (codes "b") (num 2) end)
      (unfold is_empty in refl) (λ e. cc (e)) (refl, tt)
