-- ===== src/Regex.antt =====
-- The part of Python's `re` that the program's patterns use: a backtracking matcher.
-- A pattern is tried at a place of the text, given by the character before it and the text from
-- there on; `runs` lists the ways to match there in the order in which `re` tries them, each as
-- the text consumed and the text left.
pub mod Matches
pub mod Sound
pub mod Complete
pub mod Search
pub mod Width
use omnicursor.Prelude.{
  ℕ, zero, suc, Bool, true, false, not, ◌&&◌, ◌||◌, Option, none, some, List, [], ◌∷◌, ◌++◌, ◌==◌,
  if◌then◌else◌, length,
}
use omnicursor.Text.{Text, is_word, is_space, to_lower, to_upper}

pub data Regex : Type 0 where
  -- the empty text
  eps : Regex
  -- one character of a set
  set : (ℕ → Bool) → Regex
  seq alt : Regex → Regex → Regex
  -- `r*`, greedy
  star : Regex → Regex
  -- `\b`
  bound : Regex
  -- `^`, `$`, and `$` under MULTILINE
  at_start at_end at_eol : Regex

-- The character before the place that is reached once `a` is consumed.
unfoldable pub last_or : Option ℕ → Text → Option ℕ
last_or prev [] = prev
last_or prev (c ∷ a) = last_or (some c) a

abbrev pub word_before : Option ℕ → Bool
word_before none = false
word_before (some c) = is_word c

abbrev pub word_after : Text → Bool
word_after [] = false
word_after (c ∷ t) = is_word c

-- Exactly one of the two neighbours is a word character.
abbrev pub is_edge : Option ℕ → Text → Bool
is_edge prev t = if word_before prev then not (word_after t) else word_after t

abbrev pub is_start : Option ℕ → Bool
is_start none = true
is_start (some c) = false

-- `$`: at the end, or before a newline that ends the text.
abbrev pub is_end : Text → Bool
is_end [] = true
is_end (c ∷ []) = c == 10
is_end (c ∷ d ∷ t) = false

abbrev pub is_eol : Text → Bool
is_eol [] = true
is_eol (c ∷ t) = c == 10

abbrev pub Run : Type 0
Run = Text × Text

unfoldable pub prepend : Text → List Run → List Run
prepend a [] = []
prepend a ((b, t) ∷ l) = (a ++ b, t) ∷ prepend a l

-- After each way to match the first part, each way to go on.
unfoldable pub follow : List Run → (Text → Text → List Run) → List Run
unfolding prepend
follow [] k = []
follow ((a, t) ∷ l) k = prepend a (k a t) ++ follow l k

-- The runs that consume something: a repetition of an empty match ends the loop.
unfoldable pub nonempty : List Run → List Run
nonempty [] = []
nonempty (([], t) ∷ l) = nonempty l
nonempty ((c ∷ a, t) ∷ l) = (c ∷ a, t) ∷ nonempty l

-- Each round consumes a character, so the length of the text is fuel enough.
unfoldable pub star_runs : (Option ℕ → Text → List Run) → ℕ → Option ℕ → Text → List Run
unfolding follow nonempty last_or
star_runs step zero prev t = ([], t) ∷ []
star_runs step (suc n) prev t =
    follow (nonempty (step prev t)) (λ a u. star_runs step n (last_or prev a) u) ++ ([], t) ∷ []

abbrev pub when : Bool → Text → List Run
when true t = ([], t) ∷ []
when false t = []

abbrev pub one : (ℕ → Bool) → Text → List Run
one p [] = []
one p (c ∷ t) = if p c then (c ∷ [], t) ∷ [] else []

unfoldable pub runs : Regex → Option ℕ → Text → List Run
unfolding follow star_runs last_or is_word
runs eps prev t = ([], t) ∷ []
runs (set p) prev t = one p t
runs (seq r s) prev t = follow (runs r prev t) (λ a u. runs s (last_or prev a) u)
runs (alt r s) prev t = runs r prev t ++ runs s prev t
runs (star r) prev t = star_runs (runs r) (length t) prev t
runs bound prev t = when (is_edge prev t) t
runs at_start prev t = when (is_start prev) t
runs at_end prev t = when (is_end t) t
runs at_eol prev t = when (is_eol t) t

abbrev pub has_run : List Run → Bool
has_run [] = false
has_run (r ∷ l) = true

search_from : Regex → Option ℕ → Text → Bool
unfolding runs
search_from r prev [] = has_run (runs r prev [])
search_from r prev (c ∷ t) =
    let later = search_from r (some c) t in if has_run (runs r prev (c ∷ t)) then true else later

-- `bool(re.search(r, text))`
unfoldable pub re_search : Regex → Text → Bool
unfolding search_from
re_search r t = search_from r none t

-- Notation for patterns.
abbrev pub plus : Regex → Regex
plus r = seq r (star r)

-- `r?`, greedy
abbrev pub opt : Regex → Regex
opt r = alt r eps

-- one character, and one character under IGNORECASE
abbrev pub chr : ℕ → Regex
chr c = set (λ d. d == c)

abbrev pub chr_i : ℕ → Regex
chr_i c = set (λ d. to_lower d == to_lower c)

abbrev pub lit : Text → Regex
lit [] = eps
lit (c ∷ t) = seq (chr c) (lit t)

abbrev pub lit_i : Text → Regex
lit_i [] = eps
lit_i (c ∷ t) = seq (chr_i c) (lit_i t)

-- a set under IGNORECASE
abbrev pub set_i : (ℕ → Bool) → Regex
set_i p = set (λ d. p (to_lower d) || p (to_upper d))

abbrev pub dot : Regex
dot = set (λ c. not (c == 10))

abbrev pub space : Regex
space = set is_space

abbrev pub non_space : Regex
non_space = set (λ c. not (is_space c))

-- `r{n}` and `r{n,}`
abbrev pub times : ℕ → Regex → Regex
times zero r = eps
times (suc n) r = seq r (times n r)

abbrev pub at_least : ℕ → Regex → Regex
at_least n r = seq (times n r) (star r)

-- the parts one after the other
abbrev pub cat : List Regex → Regex
cat [] = eps
cat (r ∷ []) = r
cat (r ∷ s ∷ l) = seq r (cat (s ∷ l))
