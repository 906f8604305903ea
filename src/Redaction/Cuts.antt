-- ===== src/Redaction/Cuts.antt =====
-- The match that a secret pattern finds at a place is one, and there is none where it finds none.
use omnicursor.Prelude.{
  ℕ, ◌≡◌, refl, sym, ap, ◌∙◌, subst, Option, some, List, [], ◌∷◌, ◌++◌, arith, Has, inl, inr,
  Option-cases,
}
use omnicursor.Text.{Text}
use omnicursor.Regex.{last_or, Run, runs}
use omnicursor.Regex.Matches.{Matches}
use omnicursor.Regex.Sound.{AllRuns, runs_sound}
use omnicursor.Regex.Complete.{runs_complete}
use omnicursor.Redaction.{Cut, first_after, first_dropped, first_before, first_cut}
use omnicursor.Redaction.Patterns.{Secret}

-- `k` is a match of the pattern at the place, in its three parts.
pub record CutAt (s : Secret) (prev : Option ℕ) (t : Text) (k : Cut) : Type 0 where
  pub splits : t ≡ k.before ++ (k.dropped ++ (k.after ++ k.rest))
  pub starts : Matches s.kept_before prev k.before (k.dropped ++ (k.after ++ k.rest))
  pub middle : Matches s.dropped (last_or prev k.before) k.dropped (k.after ++ k.rest)
  pub ends : Matches s.kept_after (last_or (last_or prev k.before) k.dropped) k.after k.rest

module _ (s : Secret) (prev : Option ℕ) (t a u b v : Text) (first : t ≡ a ++ u)
    (second : u ≡ b ++ v) (starts : Matches s.kept_before prev a u)
    (middle : Matches s.dropped (last_or prev a) b v) where
  first_after-CutAt :
      (l : List Run)
      → AllRuns (Matches s.kept_after (last_or (last_or prev a) b)) v l
      → (k : Cut) → first_after a b l ≡ some k
      → CutAt s prev t k
  unfolding first_after
  first_after-CutAt [] h k e = cc
  first_after-CutAt ((c, w) ∷ l) ((third, ends), h) k e =
      let same_cut : record { before = a; dropped = b; after = c; rest = w } ≡ k = cc (e) in
      subst (CutAt s prev t) same_cut (record {
        splits = first ∙ ap (λ x. a ++ x) (second ∙ ap (λ x. b ++ x) third);
        starts = subst (Matches s.kept_before prev a) (second ∙ ap (λ x. b ++ x) third) starts;
        middle = subst (Matches s.dropped (last_or prev a) b) third middle;
        ends = ends;
      })

module _ (s : Secret) (prev : Option ℕ) (t a u : Text) (first : t ≡ a ++ u)
    (starts : Matches s.kept_before prev a u) where
  first_dropped-CutAt :
      (l : List Run)
      → AllRuns (Matches s.dropped (last_or prev a)) u l
      → (k : Cut) → first_dropped s (last_or prev a) a l ≡ some k
      → CutAt s prev t k
  unfolding first_dropped
  first_dropped-CutAt [] h k e = cc (e)
  first_dropped-CutAt ((b, v) ∷ l) ((second, middle), h) k e =
      let ends = runs s.kept_after (last_or (last_or prev a) b) v in
      elim (Option-cases (first_after a b ends)) [
        | inl missed ↦ first_dropped-CutAt l h k (rw (missed, first_dropped) at e)
        | inr (j, found) ↦
            let same_cut : j ≡ k = ground arith in
            subst (CutAt s prev t) same_cut (
              first_after-CutAt s prev t a u b v first second starts middle ends
                (runs_sound s.kept_after (last_or (last_or prev a) b) v) j found)
      ]

module _ (s : Secret) (prev : Option ℕ) (t : Text) where
  first_before-CutAt :
      (l : List Run)
      → AllRuns (Matches s.kept_before prev) t l
      → (k : Cut) → first_before s prev l ≡ some k
      → CutAt s prev t k
  unfolding first_before
  first_before-CutAt [] h k e = cc (e)
  first_before-CutAt ((a, u) ∷ l) ((first, starts), h) k e =
      let middles = runs s.dropped (last_or prev a) u in
      elim (Option-cases (first_dropped s (last_or prev a) a middles)) [
        | inl missed ↦ first_before-CutAt l h k (rw (missed, first_before) at e)
        | inr (j, found) ↦
            let same_cut : j ≡ k = ground arith in
            subst (CutAt s prev t) same_cut (
              first_dropped-CutAt s prev t a u first starts middles
                (runs_sound s.dropped (last_or prev a) u) j found)
      ]

  pub first_cut-CutAt : (k : Cut) → first_cut s prev t ≡ some k → CutAt s prev t k
  unfolding first_cut
  first_cut-CutAt k e =
      first_before-CutAt (runs s.kept_before prev t) (runs_sound s.kept_before prev t) k e

first_after_total :
    (a b : Text) (run : Run) (l : List Run) → Has run l → (k : Cut) × (first_after a b l ≡ some k)
unfolding first_after
first_after_total a b run [] h = absurd h
first_after_total a b run ((c, w) ∷ l) h =
    (record { before = a; dropped = b; after = c; rest = w }, refl)

module _ (s : Secret) (prev : Option ℕ) where
  abbrev Ends : Text → Run → Type 0
  Ends a run =
      (last_run : Run) × Has last_run (runs s.kept_after (last_or (last_or prev a) run.0) run.1)

  first_dropped_total :
      (a : Text) (run : Run) (l : List Run)
      → Has run l
      → Ends a run
      → (k : Cut) × (first_dropped s (last_or prev a) a l ≡ some k)
  unfolding first_dropped
  first_dropped_total a run [] h e = absurd h
  first_dropped_total a run ((b, v) ∷ l) h e =
      elim (Option-cases (first_after a b (runs s.kept_after (last_or (last_or prev a) b) v))) [
        | inr (j, found) ↦ (j, rw (found, first_dropped) refl)
        | inl missed ↦ elim h [
          | inl at_head ↦
              let (c, member) = subst (Ends a) (sym at_head) e in
              let (j, found) = first_after_total a b c _ member in cc (missed, found)
          | inr later ↦
              let (j, found) = first_dropped_total a run l later e in
              (j, rw (missed, first_dropped) found)
        ]
      ]

  abbrev Middles : Run → Type 0
  Middles run = (b : Run) × Has b (runs s.dropped (last_or prev run.0) run.1) × Ends run.0 b

  first_before_total :
      (run : Run) (l : List Run)
      → Has run l
      → Middles run
      → (k : Cut) × (first_before s prev l ≡ some k)
  unfolding first_before
  first_before_total run [] h m = absurd h
  first_before_total run ((a, u) ∷ l) h m =
      elim (Option-cases (first_dropped s (last_or prev a) a (runs s.dropped (last_or prev a) u))) [
        | inr (j, found) ↦ (j, rw (found, first_before) refl)
        | inl missed ↦ elim h [
          | inl at_head ↦
              let (b, member, ends) = subst Middles (sym at_head) m in
              let (j, found) = first_dropped_total a b _ member ends in cc (missed, found)
          | inr later ↦
              let (j, found) = first_before_total run l later m in
              (j, rw (missed, first_before) found)
        ]
      ]

  -- Where the pattern matches, a match is found.
  pub first_cut_total :
      (t : Text) (k : Cut) → CutAt s prev t k → (j : Cut) × (first_cut s prev t ≡ some j)
  unfolding first_cut
  first_cut_total t k c =
      let u = k.dropped ++ (k.after ++ k.rest) in
      let starts = runs_complete s.kept_before prev k.before u c.starts in
      let middle =
        runs_complete s.dropped (last_or prev k.before) k.dropped (k.after ++ k.rest) c.middle in
      let ends =
        runs_complete s.kept_after (last_or (last_or prev k.before) k.dropped) k.after k.rest
          c.ends in
      rw c.splits (
        first_before_total (k.before, u) (runs s.kept_before prev (k.before ++ u)) starts
          ((k.dropped, k.after ++ k.rest), middle, ((k.after, k.rest), ends)))
