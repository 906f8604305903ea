-- ===== src/Learned/Upsert.antt =====
-- What `_upsert_pattern` does to the place of a domain and its keywords, and to the other entries.
use omnicursor.Prelude.{ℕ, ◌≡◌, refl, Bool, true, not, List, [], ◌∷◌, keep, length, max, arith}
use omnicursor.Text.{Text, same_refl}
use omnicursor.Event.{is_text}
use omnicursor.Learned.{Pattern}
use omnicursor.Learned.Steps.{is_at, reinforce, new_pattern, upsert_at, upsert_pattern, pattern_key}

-- the entries at a place, and those elsewhere
abbrev pub at_place : Text → Text → List Pattern → List Pattern
at_place domain key ps = keep (is_at domain key) ps

abbrev pub elsewhere : Text → Text → List Pattern → List Pattern
elsewhere domain key ps = keep (λ (p : Pattern). not (is_at domain key p)) ps

new_pattern-is_at :
    (digest : Text → Text) (domain key description : Text) (now : ℕ) (injected : Bool)
    → is_at domain key (new_pattern digest domain key description now injected) ≡ true
unfolding is_at new_pattern is_text
new_pattern-is_at digest domain key description now injected =
    rw (same_refl domain, same_refl key) refl

reinforce-is_at :
    (domain key description : Text) (now : ℕ) (injected : Bool) (p : Pattern)
    → is_at domain key (reinforce description now injected p) ≡ is_at domain key p
unfolding is_at reinforce
reinforce-is_at domain key description now injected p = refl

module _ (digest : Text → Text) (domain key description : Text) (now : ℕ) (injected : Bool) where
  elsewhere-upsert_at :
      (ps : List Pattern)
      → elsewhere domain key (upsert_at digest domain key description now injected ps)
        ≡ elsewhere domain key ps
  unfolding upsert_at
  elsewhere-upsert_at [] =
      let here = new_pattern-is_at digest domain key description now injected in
      ground (arith, here)
  elsewhere-upsert_at (p ∷ ps) =
      let rest = elsewhere-upsert_at ps in
      let kept = reinforce-is_at domain key description now injected p in ground (arith, rest, kept)

  length-at_place :
      (ps : List Pattern)
      → length (at_place domain key (upsert_at digest domain key description now injected ps))
        ≡ max 1 (length (at_place domain key ps))
  unfolding upsert_at
  length-at_place [] =
      let here = new_pattern-is_at digest domain key description now injected in
      ground (arith, here)
  length-at_place (p ∷ ps) =
      let rest = length-at_place ps in
      let kept = reinforce-is_at domain key description now injected p in ground (arith, rest, kept)

-- Behind an upsert the place of the domain and the key of the keywords has an entry: as many as
-- before, or one where there was none. The entries elsewhere are unchanged and in their order.
pub upsert_pattern_lem :
    (digest : Text → Text) (ps : List Pattern) (domain : Text) (keywords : List Text)
    (description : Text) (now : ℕ) (injected : Bool)
    → let key = pattern_key keywords in
      let after = upsert_pattern digest ps domain keywords description now injected in
      (length (at_place domain key after) ≡ max 1 (length (at_place domain key ps)))
      × (elsewhere domain key after ≡ elsewhere domain key ps)
unfolding upsert_pattern
upsert_pattern_lem digest ps domain keywords description now injected = (
  length-at_place digest domain (pattern_key keywords) description now injected ps,
  elsewhere-upsert_at digest domain (pattern_key keywords) description now injected ps,
)
