-- ===== src/Skills.antt =====
-- src/omnicursor/skills.py: the names of skills. Reading the SKILL.md files is not modelled.
pub mod Spelling
use omnicursor.Prelude.{List, ◌++◌, drop, length, if◌then◌else◌}
use omnicursor.Text.{Text, codes, starts_with, strip}

unfoldable pub skill_id_prefix : Text
skill_id_prefix = codes "onex-"

unfoldable pub legacy_colon_prefix : Text
legacy_colon_prefix = codes "onex:"

unfoldable pub slug_of : Text → Text
slug_of s =
    if starts_with s legacy_colon_prefix
    then drop (length legacy_colon_prefix) s
    else if starts_with s skill_id_prefix
    then drop (length skill_id_prefix) s
    else s

-- `skill_slug`
unfoldable pub skill_slug : Text → Text
skill_slug skill_name = slug_of (strip skill_name)

-- `canonical_skill_id`
unfoldable pub canonical_skill_id : Text → Text
canonical_skill_id skill_name = skill_id_prefix ++ skill_slug skill_name
