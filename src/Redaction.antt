-- ===== src/Redaction.antt =====
-- .cursor/hooks/lib/redaction.py: replacing secrets, and the bounded previews.
pub mod Patterns
pub mod Cuts
pub mod Rewrites
pub mod Preview
mod Tests
use omnicursor.Prelude.{
  ℕ, zero, suc, ◌-◌, Bool, true, false, not, ◌&&◌, ◌||◌, Option, none, some, List, [], ◌∷◌, ◌++◌,
  leb, ltb, ◌==◌, if◌then◌else◌, length, take,
}
use omnicursor.Text.{Text, codes, is_space, strip}
use omnicursor.Regex.{Regex, last_or, Run, runs}
use omnicursor.Redaction.Patterns.{Secret, secret_patterns}

-- One way to match a secret pattern at a place.
pub record Cut : Type 0 where
  pub before : Text
  pub dropped : Text
  pub after : Text
  pub rest : Text

abbrev pub consumed : Cut → Text
consumed k = k.before ++ (k.dropped ++ k.after)

-- the first run of the last part, behind the first two
unfoldable pub first_after : Text → Text → List Run → Option Cut
first_after a b [] = none
first_after a b ((c, w) ∷ l) = some (record { before = a; dropped = b; after = c; rest = w })

unfoldable pub first_dropped : Secret → Option ℕ → Text → List Run → Option Cut
first_dropped s prev a [] = none
first_dropped s prev a ((b, v) ∷ l) =
    elim (first_after a b (runs s.kept_after (last_or prev b) v)) [
      | none ↦ first_dropped s prev a l
      | some k ↦ some k
    ]

unfoldable pub first_before : Secret → Option ℕ → List Run → Option Cut
first_before s prev [] = none
first_before s prev ((a, u) ∷ l) =
    elim (first_dropped s (last_or prev a) a (runs s.dropped (last_or prev a) u)) [
      | none ↦ first_before s prev l
      | some k ↦ some k
    ]

-- The match that `re` finds at a place: the first in the order of its search.
unfoldable pub first_cut : Secret → Option ℕ → Text → Option Cut
first_cut s prev t = first_before s prev (runs s.kept_before prev t)

-- `pattern.sub(replacement, text)` behind the character `prev`. Each round consumes a character,
-- as no secret pattern matches the empty text, so one unit of fuel for each character is enough.
unfoldable pub sub_from : Secret → ℕ → Option ℕ → Text → Text
sub_from s zero prev t = t
sub_from s (suc n) prev [] = []
sub_from s (suc n) prev (c ∷ t) = elim (first_cut s prev (c ∷ t)) [
  | some k ↦ k.before ++ (s.label ++ (k.after ++ sub_from s n (last_or prev (consumed k)) k.rest))
  | none ↦ c ∷ sub_from s n (some c) t
]

unfoldable pub sub : Secret → Text → Text
sub s text = sub_from s (length text) none text

unfoldable pub sub_all : List Secret → Text → Text
sub_all [] out = out
sub_all (s ∷ ss) out = sub_all ss (sub s out)

-- `redact_secrets`
unfoldable pub redact_secrets : Text → Text
redact_secrets text = sub_all secret_patterns text

-- `s[: n - k]`: a negative end counts from the back.
unfoldable pub slice_before : ℕ → ℕ → Text → Text
slice_before n k s = if leb k n then take (n - k) s else take (length s - (k - n)) s

-- `sanitize_preview`
unfoldable pub sanitize_preview : Text → ℕ → Text
sanitize_preview text max_length =
    let sanitized = redact_secrets text in
    if ltb max_length (length sanitized)
    then slice_before max_length 3 sanitized ++ codes "..."
    else sanitized

-- `[\x00-\x08\x0b\x0c\x0e-\x1f\x7f]`
unfoldable pub is_control : ℕ → Bool
is_control c = leb c 8 || c == 11 || c == 12 || (leb 14 c && leb c 31) || c == 127

-- `_CONTROL_CHARS_RE.sub("", text)`
unfoldable pub drop_control : Text → Text
drop_control [] = []
drop_control (c ∷ s) = elim (is_control c) [ true ↦ drop_control s | false ↦ c ∷ drop_control s ]

-- `_WHITESPACE_RUN_RE.sub(" ", text)`; `inside` says that a run has begun
pub collapse_from : Bool → Text → Text
collapse_from inside [] = []
collapse_from inside (c ∷ s) = elim (is_space c) [
  | true ↦ if inside then collapse_from true s else b' ' ∷ collapse_from true s
  | false ↦ c ∷ collapse_from false s
]

unfoldable pub collapse_spaces : Text → Text
collapse_spaces s = collapse_from false s

-- `sanitize_pattern_text`
unfoldable pub sanitize_pattern_text : Text → ℕ → Text
sanitize_pattern_text text max_length =
    sanitize_preview (strip (collapse_spaces (drop_control text))) max_length
