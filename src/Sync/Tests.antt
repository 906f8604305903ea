-- ===== src/Sync/Tests.antt =====
-- Runs of pattern_sync.py, and the theorem about it at an input.
use omnicursor.Prelude.{◌≡◌, refl, Option, none, some, [], ◌∷◌}
use omnicursor.Text.{Text, codes, same, is_empty, starts_with}
use omnicursor.Json.{Json, end, field, obj, str, Result, ok, raised, value_error}
use omnicursor.Sync.{merge_patterns, base_url, drop_slashes, first_filled}
use omnicursor.Sync.Merging.{MergeOf, merge_patterns-MergeOf}

run_url : Option Text → Result Text
unfolding base_url drop_slashes first_filled same is_empty starts_with
run_url override = base_url (λ name. none) override

slashes_go : run_url (some (codes "https://x//")) ≡ ok (codes "https://x")
unfolding run_url
slashes_go = refl

no_file : run_url (some (codes "file:///etc/passwd")) ≡ raised value_error
unfolding run_url
no_file = refl

abbrev one : Json
one = obj (field (codes "pattern_id") (str (codes "p")) end)

merge_patterns-MergeOf_example :
    MergeOf (λ v. []) (one ∷ []) (one ∷ []) (merge_patterns (λ v. []) (one ∷ []) (one ∷ []))
merge_patterns-MergeOf_example = merge_patterns-MergeOf (λ v. []) (one ∷ []) (one ∷ [])
