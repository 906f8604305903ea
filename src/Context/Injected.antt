-- ===== src/Context/Injected.antt =====
-- What is injected of the patterns.
use omnicursor.Prelude.{
  ℕ, ◌≤◌, ◌⊎◌, length-append, ◌≡◌, refl, ◌≢◌, ◌↔◌, true, Option, none, some, List, [], ◌∷◌, ◌++◌,
  map, take, length, if◌then◌else◌, get_or, All-append, arith, Bool-cases, inl, inr,
}
use omnicursor.Text.{Text, codes, is_empty, join}
use omnicursor.Redaction.{sanitize_pattern_text}
use omnicursor.Redaction.Preview.{
  flat_char, IsFlat, length-sanitize_preview-le, sanitize_pattern_text-IsFlat,
}
use omnicursor.Learned.Session.{RawPattern}
use omnicursor.Selection.{max_patterns}
use omnicursor.Context.{
  pattern_line, patterns_block, proof_sentinel, with_sentinel, refresh_header, refresh_with,
  build_refresh_context,
}

constants-IsFlat : IsFlat (codes "- **[") × IsFlat (codes "]** ")
constants-IsFlat = ground arith

pattern_line-IsFlat : (p : RawPattern) → IsFlat (pattern_line p)
unfolding pattern_line
pattern_line-IsFlat p =
    let P : ℕ → Type 0 = λ c. flat_char c ≡ true in
    All-append P (codes "- **[") _ constants-IsFlat.0 (
      All-append P _ _ (sanitize_pattern_text-IsFlat (get_or p.pattern_id (codes "?")) 80) (
        All-append P (codes "]** ") _ constants-IsFlat.1
          (sanitize_pattern_text-IsFlat (get_or p.description []) 300)))

length-sanitize_pattern_text-le :
    (t : Text) (n : ℕ) → 3 ≤ n → length (sanitize_pattern_text t n) ≤ n
unfolding sanitize_pattern_text
length-sanitize_pattern_text-le t n h = length-sanitize_preview-le _ n h

-- The line shows the identifier and the description of the pattern, both sanitized; it is at most 389
-- characters long, and no character of it is below the blank or DEL.
pub record Shows (p : RawPattern) (line : Text) : Type 0 where
  pub id : Text
  pub description : Text
  pub id_of : id ≡ sanitize_pattern_text (get_or p.pattern_id (codes "?")) 80
  pub description_of : description ≡ sanitize_pattern_text (get_or p.description []) 300
  pub spelled : line ≡ codes "- **[" ++ (id ++ (codes "]** " ++ description))
  pub bounded : length line ≤ 389
  pub flat : IsFlat line

pattern_line-Shows : (p : RawPattern) → Shows p (pattern_line p)
pattern_line-Shows p =
    let id = sanitize_pattern_text (get_or p.pattern_id (codes "?")) 80 in
    let description = sanitize_pattern_text (get_or p.description []) 300 in
    let short_id =
      length-sanitize_pattern_text-le (get_or p.pattern_id (codes "?")) 80 (omega arith) in
    let short = length-sanitize_pattern_text-le (get_or p.description []) 300 (omega arith) in
    record {
      id = id;
      description = description;
      id_of = refl;
      description_of = refl;
      spelled = unfold pattern_line in refl;
      bounded =
          unfold pattern_line in
          omega (arith, short_id, short, length-append {0} id (codes "]** " ++ description));
      flat = pattern_line-IsFlat p;
    }

-- a line for each pattern, in their order
pub Shown : List RawPattern → List Text → Type 0
Shown [] [] = Unit
Shown [] (l ∷ ls) = ⊥
Shown (p ∷ ps) [] = ⊥
Shown (p ∷ ps) (l ∷ ls) = Shows p l × Shown ps ls

lines-Shown : (ps : List RawPattern) → Shown ps (map pattern_line ps)
unfolding Shown
lines-Shown [] = tt
lines-Shown (p ∷ ps) = (pattern_line-Shows p, lines-Shown ps)

-- A refresh as the model gets it.
pub record Refreshed (sentinel : Option Text) (patterns : List RawPattern) (domain : Text)
    : Type 0 where
  pub silent :
      (build_refresh_context sentinel patterns domain ≡ []) ↔ ((patterns ≡ []) × (sentinel ≡ none))
  pub lines : List Text
  pub shown : Shown (take 5 patterns) lines
  pub shape :
      (patterns ≡ [])
      ⊎ (build_refresh_context sentinel patterns domain
          ≡ refresh_header patterns domain (proof_sentinel sentinel)
            ++ (codes "\n\n"
                ++ join (codes "\n") (
                    (codes "### Learned Patterns (refreshed · " ++ (domain ++ codes ")")) ∷ lines)))

header-filled :
    (patterns : List RawPattern) (domain sentinel rest : Text)
    → refresh_header patterns domain sentinel ++ rest ≢ []
unfolding refresh_header with_sentinel
header-filled patterns domain sentinel rest e = elim (Bool-cases (is_empty sentinel)) [
  | inl f ↦ cc (rw f at e)
  | inr f ↦ cc (rw f at e)
]

header-only :
    (patterns : List RawPattern) (domain sentinel : Text)
    → (if is_empty (codes "<!-- OmniCursor: sentinel " ++ (sentinel ++ codes " -->"))
        then []
        else refresh_header patterns domain
            (codes "<!-- OmniCursor: sentinel " ++ (sentinel ++ codes " -->")))
      ≢ []
unfolding is_empty refresh_header with_sentinel
header-only patterns domain sentinel e = cc (e)

-- A refresh is empty exactly if there is no pattern and the proof mode is off. Else it has, behind
-- its header and its heading, a line for each of the first five patterns, in their order: with the
-- sanitized identifier and description of the pattern, at most 389 characters long, and with no
-- character below the blank and no DEL.
pub build_refresh_context-Refreshed :
    (sentinel : Option Text) (patterns : List RawPattern) (domain : Text)
    → Refreshed sentinel patterns domain
unfolding build_refresh_context refresh_with patterns_block
build_refresh_context-Refreshed none [] domain = record {
  silent = (λ e. (refl, refl), λ h. unfold proof_sentinel is_empty in refl);
  lines = [];
  shown = unfold Shown in tt;
  shape = inl refl;
}
build_refresh_context-Refreshed (some s) [] domain = record {
  silent =
      (λ e. absurd (header-only [] domain s (unfold proof_sentinel in e)), λ h. absurd (cc (h.1)));
  lines = [];
  shown = unfold Shown in tt;
  shape = inl refl;
}
build_refresh_context-Refreshed sentinel (p ∷ ps) domain = record {
  silent = (
    λ e. absurd (header-filled (p ∷ ps) domain (proof_sentinel sentinel) _ e),
    λ h. absurd (cc (h.0)),
  );
  lines = map pattern_line (take max_patterns (p ∷ ps));
  shown = lines-Shown (take max_patterns (p ∷ ps));
  shape = inr refl;
}
