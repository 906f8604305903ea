-- ===== src/Sync.antt =====
-- src/omnicursor/sync/pattern_sync.py: the patterns of the service merged into the local file. `dumps`
-- is json.dumps with sorted keys; the replies of the service are given.
mod Merging
mod Tests
use omnicursor.Prelude.{
  ℕ, Bool, true, false, not, ◌&&◌, ◌||◌, Option, none, some, List, [], ◌∷◌, ◌++◌, if◌then◌else◌,
  map,
}
use omnicursor.Text.{Text, codes, same, is_empty, starts_with}
use omnicursor.Keywords.{member}
use omnicursor.Json.{
  Json, Items, nil, cons, Fields, end, field, obj, arr, str, elems, get, FileJson, unreadable,
  malformed, undecodable, holds, Result, ok, raised, unicode_error, value_error, ◌>>=◌, set_key,
}

abbrev pub patterns_of_field : Option Json → Option (List Json)
patterns_of_field (some (arr vs)) = some (elems vs)
patterns_of_field o = none

-- the list of a document: itself, or its "patterns"
unfoldable pub patterns_of : Json → Option (List Json)
patterns_of (arr vs) = some (elems vs)
patterns_of (obj fs) = patterns_of_field (get (codes "patterns") fs)
patterns_of v = none

abbrev pub list_or_empty : Option (List Json) → List Json
list_or_empty none = []
list_or_empty (some vs) = vs

-- `_read_local_patterns`
unfoldable pub read_local_patterns : FileJson → Result (List Json)
read_local_patterns (holds v) = ok (list_or_empty (patterns_of v))
read_local_patterns unreadable = ok []
read_local_patterns malformed = ok []
read_local_patterns undecodable = raised unicode_error

-- the identifier of a pattern that has one
abbrev pub id_field : Option Json → Option Text
id_field (some (str s)) = if is_empty s then none else some s
id_field o = none

unfoldable pub given_id : Json → Option Text
given_id (obj fs) = id_field (get (codes "pattern_id") fs)
given_id v = none

-- `s.rstrip("/")`
unfoldable pub drop_slashes : Text → Text
drop_slashes [] = []
drop_slashes (c ∷ s) =
    let rest = drop_slashes s in if same (c ∷ []) (codes "/") && is_empty rest then [] else c ∷ rest

-- the first text that is there and not empty
unfoldable pub first_filled : List (Option Text) → Text → Text
first_filled [] default = default
first_filled (none ∷ os) default = first_filled os default
first_filled (some s ∷ os) default =
    let rest = first_filled os default in if is_empty s then rest else s

abbrev pub checked_url : Text → Result Text
checked_url base =
    if starts_with base (codes "http://") || starts_with base (codes "https://")
    then ok base
    else raised value_error

-- `_base_url`; PatternSyncConfigError is a ValueError
unfoldable pub base_url : (Text → Option Text) → Option Text → Result Text
base_url environ override = checked_url (
    drop_slashes (
      first_filled
        (override
          ∷ environ (codes "INTELLIGENCE_SERVICE_URL")
          ∷ environ (codes "OMNIINTELLIGENCE_URL")
          ∷ [])
        (codes "http://localhost:18091")))

abbrev pub items_of : List Json → Items
items_of [] = nil
items_of (v ∷ vs) = cons v (items_of vs)

-- What `run` meets: the variables, the health of the service, the file, the reply, and whether the
-- merged patterns can be written.
pub record SyncWorld : Type 0 where
  pub environ : Text → Option Text
  pub override : Option Text
  pub healthy : Bool
  pub local_file : FileJson
  pub reply : FileJson
  pub writable : Bool

-- the answer, and the document that is written in one step
abbrev pub Synced : Type 0
Synced = Bool × Option Fields

unfoldable pub save_merged : Bool → List Json → Synced
save_merged writable merged =
    if writable
    then (true, some (field (codes "patterns") (arr (items_of merged)) end))
    else (false, none)

module _ (dumps : Json → Text) where
  -- `_pattern_identity`
  unfoldable pub pattern_identity : Json → Text
  pattern_identity v = elim (given_id v) [
    | some s ↦ codes "pattern_id:" ++ s
    | none ↦ codes "json:" ++ dumps v
  ]

  -- the loop of `_merge_patterns`: what is appended
  unfoldable pub unseen : List Text → List Json → List Json
  unseen seen [] = []
  unseen seen (v ∷ vs) =
      let skipped = unseen seen vs in
      let taken = unseen (pattern_identity v ∷ seen) vs in
      if member (pattern_identity v) seen then skipped else v ∷ taken

  -- `_merge_patterns`
  unfoldable pub merge_patterns : List Json → List Json → List Json
  merge_patterns local_patterns remote_patterns =
      local_patterns ++ unseen (map pattern_identity local_patterns) remote_patterns

  unfoldable pub merge_reply : SyncWorld → List Json → FileJson → Result Synced
  merge_reply w local_patterns unreadable = ok (false, none)
  merge_reply w local_patterns malformed = ok (false, none)
  merge_reply w local_patterns undecodable = raised unicode_error
  merge_reply w local_patterns (holds v) = elim (patterns_of v) [
    | some remote ↦ ok (save_merged w.writable (merge_patterns local_patterns remote))
    | none ↦ ok (false, none)
  ]

  -- `run`
  unfoldable pub sync_run : SyncWorld → Result Synced
  sync_run w = base_url w.environ w.override >>= λ base.
      if not w.healthy
      then ok (false, none)
      else (read_local_patterns w.local_file >>= λ local_patterns.
          merge_reply w local_patterns w.reply)
