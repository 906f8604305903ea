-- ===== src/Text.antt =====
-- Python strings as lists of code points, and the `str` methods that the program calls.
-- Case, white space and word characters are those of ASCII.
pub mod Order
pub mod Split
pub mod Token
use Prim.Native.Char.{code}
use Prim.Native.String.{String}
use omnicursor.Prelude.{
  ℕ, zero, suc, ◌+◌, ◌-◌, ◌/◌, ◌%◌, ◌≡◌, refl, ap, ◌↔◌, Bool, true, false, not, ◌&&◌, ◌||◌, List,
  [], ◌∷◌, ◌++◌, map, arith, leb, ◌==◌, ==_iff, if◌then◌else◌, length, take, drop, any,
}

abbrev pub Text : Type 0
Text = List ℕ

-- A literal of the source.
abbrev pub codes : String → Text
codes String.[] = []
codes (String.◌∷◌ c s) = code c ∷ codes s

-- `==` on strings.
unfoldable pub same : Text → Text → Bool
same [] [] = true
same [] (y ∷ t) = false
same (x ∷ s) [] = false
same (x ∷ s) (y ∷ t) = x == y && same s t

unfoldable pub is_empty : Text → Bool
is_empty [] = true
is_empty (x ∷ s) = false

unfoldable pub is_upper : ℕ → Bool
is_upper c = leb b'A' c && leb c b'Z'

unfoldable pub is_lower : ℕ → Bool
is_lower c = leb b'a' c && leb c b'z'

unfoldable pub is_digit : ℕ → Bool
is_digit c = leb b'0' c && leb c b'9'

unfoldable pub to_lower : ℕ → ℕ
unfolding is_upper
to_lower c = if is_upper c then c + 32 else c

unfoldable pub to_upper : ℕ → ℕ
unfolding is_lower
to_upper c = if is_lower c then c - 32 else c

-- `\w`.
unfoldable pub is_word : ℕ → Bool
unfolding is_upper is_lower is_digit
is_word c = is_lower c || is_upper c || is_digit c || c == b'_'

-- `\s` and `str.isspace`: tab to carriage return, the four separators, and the blank.
unfoldable pub is_space : ℕ → Bool
is_space c = (leb 9 c && leb c 13) || (leb 28 c && leb c 32)

-- `s.lower()`
unfoldable pub lower : Text → Text
unfolding to_lower
lower [] = []
lower (c ∷ s) = to_lower c ∷ lower s

-- `s.replace(a, b)` for one character each.
unfoldable pub replace_char : ℕ → ℕ → Text → Text
replace_char a b [] = []
replace_char a b (c ∷ s) = (if c == a then b else c) ∷ replace_char a b s

-- `s.startswith(p)`
unfoldable pub starts_with : Text → Text → Bool
starts_with s [] = true
starts_with [] (p ∷ ps) = false
starts_with (c ∷ s) (p ∷ ps) = c == p && starts_with s ps

-- `p in s`
unfoldable pub contains : Text → Text → Bool
unfolding starts_with
contains [] p = starts_with [] p
contains (c ∷ s) p = starts_with (c ∷ s) p || contains s p

unfoldable pub lstrip : Text → Text
unfolding is_space
lstrip [] = []
lstrip (c ∷ s) = elim (is_space c) [ true ↦ lstrip s | false ↦ c ∷ s ]

-- drops a white tail: a blank goes if all behind it went
unfoldable pub rstrip : Text → Text
unfolding is_space is_empty
rstrip [] = []
rstrip (c ∷ s) = let rest = rstrip s in if is_space c && is_empty rest then [] else c ∷ rest

-- `s.strip()`
unfoldable pub strip : Text → Text
unfolding lstrip rstrip
strip s = rstrip (lstrip s)

-- `sep.join(parts)`
unfoldable pub join : Text → List Text → Text
join sep [] = []
join sep (s ∷ []) = s
join sep (s ∷ t ∷ rest) = s ++ (sep ++ join sep (t ∷ rest))

-- `re.findall(r"\b\w+\b", s)`: the maximal runs of word characters, in order.
-- `run` is the run being read, without its end.
words_from : Text → Text → List Text
unfolding is_word is_empty
words_from run [] = if is_empty run then [] else run ∷ []
words_from run (c ∷ s) =
    let longer = words_from (run ++ c ∷ []) s in
    let fresh = words_from [] s in
    if is_word c then longer else if is_empty run then fresh else run ∷ fresh

unfoldable pub find_words : Text → List Text
unfolding words_from
find_words s = words_from [] s

pub same_iff : (s t : Text) → (same s t ≡ true) ↔ (s ≡ t)
unfolding same
same_iff [] [] = ground arith
same_iff [] (y ∷ t) = ground arith
same_iff (x ∷ s) [] = ground arith
same_iff (x ∷ s) (y ∷ t) = ground (arith, same_iff s t)

pub same_refl : (s : Text) → same s s ≡ true
same_refl s = (same_iff s s).1 refl

pub same_comm : (s t : Text) → same s t ≡ same t s
unfolding same
same_comm [] [] = refl
same_comm [] (y ∷ t) = refl
same_comm (x ∷ s) [] = refl
same_comm (x ∷ s) (y ∷ t) = ground (arith, same_comm s t)

-- `str(n)`: the decimal digits, in front of those already written. A number has at most as many
-- digits as its successor counts.
decimal_from : ℕ → ℕ → Text → Text
decimal_from zero n acc = acc
decimal_from (suc k) n acc = elim (leb n 9) [
  | true ↦ (b'0' + n) ∷ acc
  | false ↦ decimal_from k (n / 10) ((b'0' + n % 10) ∷ acc)
]

unfoldable pub decimal : ℕ → Text
unfolding decimal_from
decimal n = decimal_from (suc n) n []

-- `s.replace(a, t)` for a text `t` in place of one character
unfoldable pub replace_by : ℕ → Text → Text → Text
replace_by a t [] = []
replace_by a t (c ∷ s) = (if c == a then t else c ∷ []) ++ replace_by a t s
