-- ===== src/Hooks/Mask.antt =====
-- Which hooks run: the names of the mask, and the spellings of a hook.
use omnicursor.Prelude.{
  ◌≡◌, refl, ◌∙◌, sym, ◌↔◌, ◌⊎◌, false≢true, Bool, true, false, not, Option, none, some, List, [],
  ◌∷◌, ◌++◌, all, keep-All, map, Has, All, arith, Bool-cases, inl, inr,
}
use omnicursor.Text.{
  Text, codes, same, replace_char, lower, is_empty, is_space, strip, lstrip, rstrip, join,
}
use omnicursor.Text.Split.{Without, split-join}
use omnicursor.Text.Token.{name_token, alias_of, settles, alias-settled}
use omnicursor.Keywords.{member_iff}
use omnicursor.Hooks.{
  hook_aliases, normalize_hook_name, hooks_disabled, is_filled, mask_names, mask_allows,
  hook_enabled,
}

aliases_settled : settles hook_aliases hook_aliases ≡ true
unfolding alias_of name_token same replace_char lower strip lstrip rstrip
aliases_settled = refl

-- Every spelling of a hook comes to a name that comes to itself.
pub normalize_hook_name-idempotent :
    (s : Text) → normalize_hook_name (normalize_hook_name s) ≡ normalize_hook_name s
unfolding normalize_hook_name
normalize_hook_name-idempotent s = alias-settled hook_aliases s aliases_settled

is_empty-rstrip : (s : Text) → is_empty (rstrip s) ≡ all is_space s
unfolding rstrip is_empty
is_empty-rstrip [] = refl
is_empty-rstrip (c ∷ s) = ground (arith, is_empty-rstrip s)

all-lstrip : (s : Text) → all is_space (lstrip s) ≡ all is_space s
unfolding lstrip
all-lstrip [] = refl
all-lstrip (c ∷ s) = ground (arith, all-lstrip s)

-- A text is blank where all its characters are.
pub is_empty-strip : (s : Text) → is_empty (strip s) ≡ all is_space s
unfolding strip
is_empty-strip s = is_empty-rstrip (lstrip s) ∙ all-lstrip s

all-append : (s t : Text) → all is_space s ≡ false → all is_space (s ++ t) ≡ false
all-append [] t h = absurd (cc (h))
all-append (c ∷ s) t h = ground (arith, h, all-append s t)

filled-append : (s t : Text) → is_filled s ≡ true → is_filled (s ++ t) ≡ true
filled-append s t h =
    let e = is_empty-strip s in
    let f = is_empty-strip (s ++ t) in let g = all-append s t in ground (arith, e, f, g, h)

filled-join :
    (n : Text) (ns : List Text) → is_filled n ≡ true → is_filled (join (b',' ∷ []) (n ∷ ns)) ≡ true
unfolding join
filled-join n [] h = h
filled-join n (m ∷ ns) h = filled-append n _ h

-- A mask made of names, joined by commas, lets a hook run exactly if no kill switch is set and the
-- hook's name, in any of its spellings, is one of them. The names are not blank and hold no comma.
pub hook_enabled_iff :
    (environ : Text → Option Text) (marker : Bool) (hook_name name : Text) (names : List Text)
    → environ (codes "OMNICURSOR_HOOKS_MASK") ≡ some (join (b',' ∷ []) (name ∷ names))
    → All (Without b',') (name ∷ names)
    → All (λ n. is_filled n ≡ true) (name ∷ names)
    → (hook_enabled environ marker hook_name ≡ true) ↔ (
        (hooks_disabled environ marker ≡ false)
        × Has (normalize_hook_name hook_name) (map normalize_hook_name (name ∷ names)))
unfolding hook_enabled mask_allows mask_names
hook_enabled_iff environ marker hook_name name names e commas filled =
    let s = split-join b',' name names commas in
    let k = keep-All is_filled (name ∷ names) filled in
    let f = filled-join name names filled.0 in
    let (there, back) =
      member_iff (normalize_hook_name hook_name) (map normalize_hook_name (name ∷ names)) in
    rw (e, f, s, k)
      (elim (Bool-cases (hooks_disabled environ marker)) [
        | inl d ↦ rw d ((λ h. absurd (false≢true h)), λ h. absurd (false≢true (sym h.0)))
        | inr d ↦ rw d ((λ h. (refl, there h)), λ h. back h.1)
      ])

-- Without a mask, or with a blank one, a hook runs exactly if no kill switch is set.
pub hook_enabled-blank :
    (environ : Text → Option Text) (marker : Bool) (hook_name mask : Text)
    → (environ (codes "OMNICURSOR_HOOKS_MASK") ≡ none)
      ⊎ ((environ (codes "OMNICURSOR_HOOKS_MASK") ≡ some mask) × (all is_space mask ≡ true))
    → hook_enabled environ marker hook_name ≡ not (hooks_disabled environ marker)
unfolding hook_enabled mask_allows
hook_enabled-blank environ marker hook_name mask (inl e) = rw e (ground arith)
hook_enabled-blank environ marker hook_name mask (inr (e, b)) =
    rw (e, is_empty-strip mask, b) (ground arith)
