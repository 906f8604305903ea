-- ===== src/ShellGuard.antt =====
-- src/omnicursor/shell_guard.py: the decision on a shell command, in its tiers.
-- The process environment, the session files and the regular expressions of the configuration,
-- which may be any text, are a `World`.
pub mod Patterns
pub mod Tiers
pub mod Later
pub mod Denials
pub mod Answers
mod Tests
use omnicursor.Prelude.{
  Bool, true, false, not, ◌&&◌, Option, none, some, List, [], ◌∷◌, ◌++◌, if◌then◌else◌, get_or,
}
use omnicursor.Text.{Text, codes, same, is_empty}
use omnicursor.Json.{
  Json, null, bool, num, str, arr, obj, nil, Fields, end, field, get, truthy, truthy_option,
  set_key, update, elems, Error, attribute_error, unicode_error, Result, ok, raised, ◌>>=◌,
  FileJson, unreadable, malformed, undecodable, holds,
}
use omnicursor.Regex.{re_search}
use omnicursor.ShellGuard.Patterns.{Pattern, Warning, hard_block, soft_warn}

pub record World : Type 0 where
  -- `os.environ.get(name)`
  pub environ : Text → Option Text
  -- the file sessions_root/<conversation_id>.json
  pub session_state : Text → FileJson
  -- sessions_root/<conversation_id>/dispatch_claim, as it prints and whether it is there
  pub claim_path : Text → Text
  pub claim_exists : Text → Bool
  -- `re.search(pattern, command)`; `none` is `re.error`
  pub search : Text → Text → Option Bool
  -- `str(v)` of a value that is no string
  pub py_str : Json → Text

pub data Permission : Type 0 where
  allow deny ask : Permission

-- The response dictionary: `permission`, `userMessage`, `agentMessage`.
pub record Response : Type 0 where
  pub permission : Permission
  pub user_message : Option Text
  pub agent_message : Option Text

abbrev pub allowed : Response
allowed = record { permission = allow; user_message = none; agent_message = none }

abbrev pub denied : Text → Response
denied message = record { permission = deny; user_message = some message; agent_message = none }

abbrev pub warned : Text → Response
warned message = record { permission = allow; user_message = none; agent_message = some message }

unfoldable pub defaults : Fields
defaults = field (codes "dod_enabled") (bool false) (
    field (codes "dod_linear_transition_regex") (str []) (
      field (codes "dispatch_enabled") (bool false)
        (field (codes "dispatch_claim_regexes") (arr nil) end)))

-- a value that is no list is replaced by the empty list
force_list : Option Json → Fields → Fields
unfolding set_key
force_list (some (arr vs)) merged = merged
force_list _ merged = set_key (codes "dispatch_claim_regexes") (arr nil) merged

-- `_load_dod_config`
unfoldable pub load_dod_config : Option FileJson → Result Fields
unfolding defaults update get force_list
load_dod_config none = ok defaults
load_dod_config (some unreadable) = ok defaults
load_dod_config (some malformed) = ok defaults
load_dod_config (some undecodable) = raised unicode_error
load_dod_config (some (holds (obj raw))) =
    let merged = update defaults raw in
    ok (force_list (get (codes "dispatch_claim_regexes") merged) merged)
load_dod_config (some (holds _)) = ok defaults

-- Tier 1: the first pattern found in the command.
unfoldable pub first_hard : Text → List Pattern → Option Pattern
first_hard command [] = none
first_hard command (p ∷ ps) = if re_search p.regex command then some p else first_hard command ps

abbrev pub hard_message : Pattern → Text
hard_message p = codes "Blocked: command matches a destructive pattern (" ++ (p.source ++ codes ")")

-- `os.environ.get(name, "") != "1"`
pub not_bypassed : World → Text → Bool
unfolding same
not_bypassed w name = not (same (get_or (w.environ name) []) (codes "1"))

-- `str(cfg.get(...) or "")`
pub text_of : World → Option Json → Text
unfolding truthy
text_of w none = []
text_of w (some (str s)) = s
text_of w (some v) = if truthy v then w.py_str v else []

-- `bool(dod_rx and re.search(dod_rx, command))`, false on `re.error`
pub dod_match : World → Text → Text → Bool
unfolding is_empty
dod_match w rx command = if is_empty rx then false else get_or (w.search rx command) false

-- `state.get("ci_passing")` of the file, `{}` where it cannot be read
pub ci_passing : FileJson → Result Bool
unfolding get truthy
ci_passing unreadable = ok false
ci_passing malformed = ok false
ci_passing undecodable = raised unicode_error
ci_passing (holds (obj state)) = ok (truthy_option (get (codes "ci_passing") state))
ci_passing (holds _) = raised attribute_error

unfoldable pub dod_message : Text
dod_message =
    codes
      "Blocked (DoD): Linear done/completed transitions require `ci_passing: true` in ~/.omnicursor/sessions/<conversation_id>.json or set OMNICURSOR_DOD_BYPASS=1 for local dev."

abbrev pub dod_verdict : Bool → Option Response
dod_verdict true = none
dod_verdict false = some (denied dod_message)

unfoldable pub dod_active : World → Fields → Text → Bool
unfolding get truthy not_bypassed is_empty
dod_active w cfg conversation_id =
    not (is_empty conversation_id)
    && truthy_option (get (codes "dod_enabled") cfg)
    && not_bypassed w (codes "OMNICURSOR_DOD_BYPASS")

unfoldable pub dod_regex : World → Fields → Text
unfolding get text_of
dod_regex w cfg = text_of w (get (codes "dod_linear_transition_regex") cfg)

-- Tier 1b
pub dod_tier : World → Fields → Text → Text → Result (Option Response)
dod_tier w cfg conversation_id command =
    if dod_active w cfg conversation_id && dod_match w (dod_regex w cfg) command
    then (ci_passing (w.session_state conversation_id) >>= λ passing. ok (dod_verdict passing))
    else ok none

abbrev pub dispatch_message : Text → Text
dispatch_message claim =
    codes "Blocked (dispatch claim): touch "
    ++ (claim ++ codes " after registering intent, or set OMNICURSOR_DISPATCH_BYPASS=1.")

-- `not pat or not isinstance(pat, str)` skips; so does `re.error`
pub claim_match : World → Text → Json → Bool
unfolding is_empty
claim_match w command (str pat) =
    if is_empty pat then false else get_or (w.search pat command) false
claim_match w command _ = false

-- the loop over the claim patterns; the claim is looked up where one is found
pub dispatch_loop : World → Text → Text → List Json → Option Response
dispatch_loop w conversation_id command [] = none
dispatch_loop w conversation_id command (pat ∷ pats) =
    if claim_match w command pat && not (w.claim_exists conversation_id)
    then some (denied (dispatch_message (w.claim_path conversation_id)))
    else dispatch_loop w conversation_id command pats

abbrev pub claim_patterns : Option Json → List Json
claim_patterns (some (arr vs)) = elems vs
claim_patterns _ = []

unfoldable pub dispatch_active : World → Fields → Text → Bool
unfolding get truthy not_bypassed is_empty
dispatch_active w cfg conversation_id =
    not (is_empty conversation_id)
    && truthy_option (get (codes "dispatch_enabled") cfg)
    && not_bypassed w (codes "OMNICURSOR_DISPATCH_BYPASS")

-- Tier 1c
pub dispatch_tier : World → Fields → Text → Text → Option Response
dispatch_tier w cfg conversation_id command =
    if dispatch_active w cfg conversation_id
    then dispatch_loop w conversation_id command
        (claim_patterns (get (codes "dispatch_claim_regexes") cfg))
    else none

abbrev pub soft_message : Text → Text
soft_message reason = codes "Warning: " ++ (reason ++ codes ". Proceeding.")

-- Tier 2
pub soft_tier : Text → List Warning → Response
soft_tier command [] = allowed
soft_tier command (s ∷ rest) =
    if re_search s.pattern.regex command
    then warned (soft_message s.reason)
    else soft_tier command rest

abbrev pub or_else : Option Response → Response → Response
or_else none r = r
or_else (some r) s = r

-- the tiers behind the first one
pub later_tiers : World → Fields → Text → Text → Result Response
later_tiers w cfg conversation_id command = dod_tier w cfg conversation_id command >>= λ dod. ok (
    or_else dod
      (or_else (dispatch_tier w cfg conversation_id command) (soft_tier command soft_warn)))

abbrev pub tiers : World → Fields → Text → Text → Option Pattern → Result Response
tiers w cfg conversation_id command (some p) = ok (denied (hard_message p))
tiers w cfg conversation_id command none = later_tiers w cfg conversation_id command

-- `guard_command`
unfoldable pub guard_command : World → Option FileJson → Text → Text → Result Response
guard_command w config conversation_id command =
    if is_empty command
    then ok allowed
    else load_dod_config config >>= λ cfg.
        tiers w cfg conversation_id command (first_hard command hard_block)
