-- ===== src/Redaction/Preview.antt =====
-- What leaves `sanitize_preview` and `sanitize_pattern_text`: a bound on the length, and one line.
use omnicursor.Prelude.{
  ℕ, zero, suc, ◌-◌, ◌≤◌, ◌≡◌, refl, subst, Bool, true, false, not, ◌&&◌, Option, none, some, List,
  [], ◌∷◌, ◌++◌, arith, Bool-cases, Option-cases, inl, inr, length, length-append, length-take-le,
  take, All, All-append, All-take, ltb, leb, ◌==◌,
}
use omnicursor.Text.{Text, codes, is_space, is_empty, strip, lstrip, rstrip}
use omnicursor.Regex.{last_or}
use omnicursor.Redaction.{
  consumed, first_cut, sub_from, sub, sub_all, redact_secrets, slice_before, sanitize_preview,
  is_control, drop_control, collapse_from, collapse_spaces, sanitize_pattern_text,
}
use omnicursor.Redaction.Cuts.{first_cut-CutAt}
use omnicursor.Redaction.Patterns.{Secret, secret_patterns}

-- A preview is at most `max_length` long, if that leaves room for the dots.
pub length-sanitize_preview-le :
    (text : Text) (max_length : ℕ)
    → 3 ≤ max_length
    → length (sanitize_preview text max_length) ≤ max_length
unfolding sanitize_preview slice_before
length-sanitize_preview-le text n h =
    let s = redact_secrets text in
    let cut = length-append {0} (take (n - 3) s) (codes "...") in
    ground (arith, cut, length-take-le {0} (n - 3) s)

-- No ASCII control character, the tab, the line ends and DEL included.
abbrev pub flat_char : ℕ → Bool
flat_char c = leb 32 c && not (c == 127)

abbrev pub IsFlat : Text → Type 0
IsFlat s = All (λ c. flat_char c ≡ true) s

abbrev NoControl : Text → Type 0
NoControl s = All (λ c. is_control c ≡ false) s

drop_control-NoControl : (s : Text) → NoControl (drop_control s)
unfolding drop_control
drop_control-NoControl [] = tt
drop_control-NoControl (c ∷ s) = elim (Bool-cases (is_control c)) [
  | inl e ↦ rw (e, drop_control) (drop_control-NoControl s)
  | inr e ↦ rw (e, drop_control) (e, drop_control-NoControl s)
]

blank_flat : flat_char 32 ≡ true
blank_flat = refl

cleared : (c : ℕ) → is_control c ≡ false → is_space c ≡ false → flat_char c ≡ true
unfolding is_control is_space
cleared c n e = ground (arith, n, e)

collapse_from-IsFlat : (inside : Bool) (s : Text) → NoControl s → IsFlat (collapse_from inside s)
unfolding collapse_from
collapse_from-IsFlat inside [] h = tt
collapse_from-IsFlat true (c ∷ s) (n, h) = elim (Bool-cases (is_space c)) [
  | inl e ↦ rw (e, collapse_from) (collapse_from-IsFlat true s h)
  | inr e ↦ rw (e, collapse_from) (cleared c n e, collapse_from-IsFlat false s h)
]
collapse_from-IsFlat false (c ∷ s) (n, h) = elim (Bool-cases (is_space c)) [
  | inl e ↦ rw (e, collapse_from) (blank_flat, collapse_from-IsFlat true s h)
  | inr e ↦ rw (e, collapse_from) (cleared c n e, collapse_from-IsFlat false s h)
]

-- What a part of a text has, the text has; the other way for its cuts.
module _ (P : ℕ → Type 0) where
  All-lstrip : (s : Text) → All P s → All P (lstrip s)
  unfolding lstrip
  All-lstrip [] h = tt
  All-lstrip (c ∷ s) (p, h) = elim (Bool-cases (is_space c)) [
    | inl e ↦ rw (e, lstrip) (All-lstrip s h)
    | inr e ↦ rw (e, lstrip) (p, h)
  ]

  All-rstrip : (s : Text) → All P s → All P (rstrip s)
  unfolding rstrip
  All-rstrip [] h = tt
  All-rstrip (c ∷ s) (p, h) = elim (Bool-cases (is_space c && is_empty (rstrip s))) [
    | inl e ↦ rw e tt
    | inr e ↦ rw e (p, All-rstrip s h)
  ]

  All-append_inv : (s t : Text) → All P (s ++ t) → All P s × All P t
  All-append_inv [] t h = (tt, h)
  All-append_inv (c ∷ s) t (p, h) = let (l, r) = All-append_inv s t h in ((p, l), r)

  -- A replacement keeps what the text and the label have.
  All-sub_from :
      (s : Secret) (n : ℕ) (prev : Option ℕ) (t : Text)
      → All P s.label
      → All P t
      → All P (sub_from s n prev t)
  unfolding sub_from
  All-sub_from s zero prev t label h = h
  All-sub_from s (suc n) prev [] label h = tt
  All-sub_from s (suc n) prev (c ∷ t) label (p, h) =
      elim (Option-cases (first_cut s prev (c ∷ t))) [
        | inl missed ↦ rw (missed, sub_from) (p, All-sub_from s n (some c) t label h)
        | inr (k, found) ↦
            let cut = first_cut-CutAt s prev (c ∷ t) k found in
            let tail = k.dropped ++ (k.after ++ k.rest) in
            let parts = All-append_inv k.before tail (subst (All P) cut.splits (p, h)) in
            let more = All-append_inv k.dropped (k.after ++ k.rest) parts.1 in
            let last = All-append_inv k.after k.rest more.1 in
            let rest = sub_from s n (last_or prev (consumed k)) k.rest in
            rw (found, sub_from)
              (All-append P k.before (s.label ++ (k.after ++ rest)) parts.0 (
                All-append P s.label (k.after ++ rest) label (
                  All-append P k.after rest last.0
                    (All-sub_from s n (last_or prev (consumed k)) k.rest label last.1))))
      ]

  All-sub_all :
      (ss : List Secret) (t : Text)
      → All (λ (s : Secret). All P s.label) ss
      → All P t
      → All P (sub_all ss t)
  unfolding sub_all sub
  All-sub_all [] t labels h = h
  All-sub_all (s ∷ ss) t (label, labels) h =
      All-sub_all ss (sub s t) labels (All-sub_from s (length t) none t label h)

labels-IsFlat : All (λ (s : Secret). IsFlat s.label) secret_patterns
unfolding secret_patterns
labels-IsFlat = ground arith

redact_secrets-IsFlat : (t : Text) → IsFlat t → IsFlat (redact_secrets t)
unfolding redact_secrets
redact_secrets-IsFlat t h = All-sub_all (λ c. flat_char c ≡ true) secret_patterns t labels-IsFlat h

dots-IsFlat : IsFlat (codes "...")
dots-IsFlat = (refl, (refl, (refl, tt)))

sanitize_preview-IsFlat : (t : Text) (n : ℕ) → IsFlat t → IsFlat (sanitize_preview t n)
unfolding sanitize_preview slice_before
sanitize_preview-IsFlat t n h =
    let s = redact_secrets t in
    let flat : IsFlat s = redact_secrets-IsFlat t h in
    let P : ℕ → Type 0 = λ c. flat_char c ≡ true in
    elim (Bool-cases (ltb n (length s))) [
      | inr short ↦ rw short flat
      | inl long ↦ rw long (elim (Bool-cases (leb 3 n)) [
        | inl e ↦
            rw e
              (All-append P (take (n - 3) s) (codes "...") (All-take P (n - 3) s flat) dots-IsFlat)
        | inr e ↦ rw e (
            All-append P (take (length s - (3 - n)) s) (codes "...")
              (All-take P (length s - (3 - n)) s flat) dots-IsFlat)
      ])
    ]

-- Whatever the fetched text, no character of what is injected is below the blank, and none is DEL:
-- no ASCII control character, no tab and no end of a line.
pub sanitize_pattern_text-IsFlat : (t : Text) (n : ℕ) → IsFlat (sanitize_pattern_text t n)
unfolding sanitize_pattern_text strip collapse_spaces
sanitize_pattern_text-IsFlat t n =
    let P : ℕ → Type 0 = λ c. flat_char c ≡ true in
    let s = collapse_from false (drop_control t) in
    sanitize_preview-IsFlat (strip s) n (
      All-rstrip P (lstrip s)
        (All-lstrip P s (collapse_from-IsFlat false (drop_control t) (drop_control-NoControl t))))
