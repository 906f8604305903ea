-- ===== src/Redaction/Rewrites.antt =====
-- What `re.sub` means: leftmost matches are replaced, and nothing that starts a match is copied.
use omnicursor.Prelude.{
  ℕ, zero, suc, ap, ◌≤◌, ◌<◌, ◌+◌, Option, none, some, List, [], ◌∷◌, ◌++◌, arith, Option-cases,
  inl, inr, length, length-append, All,
}
use omnicursor.Text.{Text}
use omnicursor.Regex.{last_or}
use omnicursor.Regex.Width.{min_width, min_width-le}
use omnicursor.Redaction.{Cut, consumed, first_cut, sub_from, sub, sub_all, redact_secrets}
use omnicursor.Redaction.Cuts.{CutAt, first_cut-CutAt, first_cut_total}
use omnicursor.Redaction.Patterns.{Secret, secret_patterns}

-- `Rewrites s prev t out`: `out` is `t` with every leftmost match of `s` replaced by its groups and
-- its label. A character is copied only where no match starts.
pub data Rewrites (s : Secret) : Option ℕ → Text → Text → Type 0 where
  at_end : {prev : Option ℕ} → Rewrites s prev [] []
  replaced :
      {prev : Option ℕ} {t out : Text} (k : Cut)
      → CutAt s prev t k
      → Rewrites s (last_or prev (consumed k)) k.rest out
      → Rewrites s prev t (k.before ++ (s.label ++ (k.after ++ out)))
  copied :
      {prev : Option ℕ} {c : ℕ} {t out : Text}
      → ((k : Cut) → ¬ CutAt s prev (c ∷ t) k)
      → Rewrites s (some c) t out
      → Rewrites s prev (c ∷ t) (c ∷ out)

-- The pattern does not match the empty text.
abbrev pub Consumes : Secret → Type 0
Consumes s = 0 < min_width s.kept_before + min_width s.dropped + min_width s.kept_after

rest-shorter :
    (s : Secret) (prev : Option ℕ) (t : Text) (k : Cut)
    → Consumes s
    → CutAt s prev t k
    → length k.rest < length t
rest-shorter s prev t k h c = omega (
  arith,
  ap length c.splits,
  length-append {0} k.before (k.dropped ++ (k.after ++ k.rest)),
  length-append {0} k.dropped (k.after ++ k.rest),
  length-append {0} k.after k.rest,
  min_width-le s.kept_before _ k.before _ c.starts,
  min_width-le s.dropped _ k.dropped _ c.middle,
  min_width-le s.kept_after _ k.after _ c.ends,
)

module _ (s : Secret) (consumes : Consumes s) where
  sub_from-Rewrites :
      (n : ℕ) (prev : Option ℕ) (t : Text) → length t ≤ n → Rewrites s prev t (sub_from s n prev t)
  unfolding sub_from
  sub_from-Rewrites zero prev [] h = at_end
  sub_from-Rewrites zero prev (c ∷ t) h = absurd (omega arith)
  sub_from-Rewrites (suc n) prev [] h = at_end
  sub_from-Rewrites (suc n) prev (c ∷ t) h = elim (Option-cases (first_cut s prev (c ∷ t))) [
    | inr (k, found) ↦
        let cut = first_cut-CutAt s prev (c ∷ t) k found in
        let shorter = rest-shorter s prev (c ∷ t) k consumes cut in
        rw (found, sub_from)
          (replaced k cut (sub_from-Rewrites n (last_or prev (consumed k)) k.rest (omega arith)))
    | inl missed ↦
        rw (missed, sub_from)
          (copied
            (λ k cut. let found = first_cut_total s prev (c ∷ t) k cut in cc (missed, found.1))
            (sub_from-Rewrites n (some c) t (omega arith)))
  ]

  pub sub-Rewrites : (t : Text) → Rewrites s none t (sub s t)
  unfolding sub
  sub-Rewrites t = sub_from-Rewrites (length t) none t (omega arith)

-- One pass for each pattern, in order.
pub data Passes : List Secret → Text → Text → Type 0 where
  done : {t : Text} → Passes [] t t
  pass :
      {s : Secret} {ss : List Secret} {t u out : Text}
      → Rewrites s none t u
      → Passes ss u out
      → Passes (s ∷ ss) t out

sub_all-Passes : (ss : List Secret) (t : Text) → All Consumes ss → Passes ss t (sub_all ss t)
unfolding sub_all
sub_all-Passes [] t h = done
sub_all-Passes (s ∷ ss) t (h, hs) = pass (sub-Rewrites s h t) (sub_all-Passes ss (sub s t) hs)

secret_patterns-Consumes : All Consumes secret_patterns
unfolding secret_patterns min_width
secret_patterns-Consumes = omega arith

-- `redact_secrets` makes one pass for each pattern of the table, in its order. A pass replaces the
-- leftmost matches one after the other, keeps their groups, and copies no character at which a
-- match of its pattern starts; so no match is skipped and the fuel is always enough.
pub redact_secrets-Passes : (t : Text) → Passes secret_patterns t (redact_secrets t)
unfolding redact_secrets
redact_secrets-Passes t = sub_all-Passes secret_patterns t secret_patterns-Consumes
