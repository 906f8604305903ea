-- ===== src/Regex/Width.antt =====
-- The least number of characters that a pattern consumes.
use omnicursor.Prelude.{ℕ, ◌+◌, ◌≤◌, ap, Option, arith, length, length-append, min}
use omnicursor.Text.{Text}
use omnicursor.Regex.{Regex, eps, set, seq, alt, star, bound, at_start, at_end, at_eol}
use omnicursor.Regex.Matches.{Matches, m_set, m_seq, m_left, m_right}

unfoldable pub min_width : Regex → ℕ
min_width eps = 0
min_width (set p) = 1
min_width (seq r s) = min_width r + min_width s
min_width (alt r s) = min (min_width r) (min_width s)
min_width (star r) = 0
min_width bound = 0
min_width at_start = 0
min_width at_end = 0
min_width at_eol = 0

-- Every match is at least as long.
pub min_width-le :
    (r : Regex) (prev : Option ℕ) (a t : Text) → Matches r prev a t → min_width r ≤ length a
unfolding min_width
min_width-le eps prev a t m = omega arith
min_width-le (set p) prev a t (m_set e) = omega arith
min_width-le (seq r s) prev c t (m_seq {a = a} {b = b} p q g) =
    omega
      (arith, ap length g, length-append {0} a b, min_width-le r _ a _ p, min_width-le s _ b _ q)
min_width-le (alt r s) prev a t (m_left m) = omega (arith, min_width-le r prev a t m)
min_width-le (alt r s) prev a t (m_right m) = omega (arith, min_width-le s prev a t m)
min_width-le (star r) prev a t m = omega arith
min_width-le bound prev a t m = omega arith
min_width-le at_start prev a t m = omega arith
min_width-le at_end prev a t m = omega arith
min_width-le at_eol prev a t m = omega arith
