-- ===== src/Regex/Complete.antt =====
-- The matcher finds every match: with `Sound`, `re_search` decides whether a pattern occurs.
use omnicursor.Prelude.{
  ℕ, zero, suc, ◌≡◌, refl, sym, ap, subst, ◌≤◌, Bool, true, false, Option, List, [], ◌∷◌, ◌++◌,
  arith, inl, inr, length, length-append, Has, Has-append_left, Has-append_right,
}
use mathlib.Core.List.{append_assoc}
use omnicursor.Text.{Text}
use omnicursor.Regex.{
  Regex, eps, set, seq, alt, star, bound, at_start, at_end, at_eol, last_or, Run, prepend, follow,
  nonempty, star_runs, when, runs,
}
use omnicursor.Regex.Matches.{
  Matches, m_eps, m_set, m_seq, m_left, m_right, m_stop, m_more, m_bound, m_start, m_end, m_eol,
}

Has-prepend :
    (a b v : Text) (l : List Run) → Has {A = Run} (b, v) l → Has {A = Run} (a ++ b, v) (prepend a l)
unfolding prepend
Has-prepend a b v [] h = absurd h
Has-prepend a b v ((c, w) ∷ l) (inl e) =
    inl (ap (λ (x : Run). let y : Run = (a ++ x.0, x.1) in y) e)
Has-prepend a b v ((c, w) ∷ l) (inr h) = inr (Has-prepend a b v l h)

Has-follow :
    (k : Text → Text → List Run) (a u : Text) (run : Run) (l : List Run)
    → Has {A = Run} (a, u) l
    → Has run (prepend a (k a u))
    → Has run (follow l k)
unfolding follow
Has-follow k a u run [] h m = absurd h
Has-follow k a u run ((b, v) ∷ l) (inl e) m =
    Has-append_left run (prepend b (k b v)) (follow l k)
      (subst (λ (x : Run). Has run (prepend x.0 (k x.0 x.1))) (sym e) m)
Has-follow k a u run ((b, v) ∷ l) (inr h) m =
    Has-append_right run (prepend b (k b v)) (follow l k) (Has-follow k a u run l h m)

Has-nonempty :
    (x : ℕ) (y u : Text) (l : List Run)
    → Has {A = Run} (x ∷ y, u) l
    → Has {A = Run} (x ∷ y, u) (nonempty l)
unfolding nonempty
Has-nonempty x y u [] h = absurd h
Has-nonempty x y u (([], v) ∷ l) (inl e) = cc (ap (λ (r : Run). r.0) e)
Has-nonempty x y u (([], v) ∷ l) (inr h) = Has-nonempty x y u l h
Has-nonempty x y u ((c ∷ a, v) ∷ l) (inl e) = inl e
Has-nonempty x y u ((c ∷ a, v) ∷ l) (inr h) = inr (Has-nonempty x y u l h)

-- The runs of `r` reach every match of `r`.
abbrev Reaches : Regex → Type 0
Reaches r =
    (prev : Option ℕ) (a t : Text)
    → Matches r prev a t
    → Has {A = Run} (a, t) (runs r prev (a ++ t))

Has-star_step :
    (r : Regex) (prev : Option ℕ) (a u b t : Text) (x : ℕ) (y : Text) (n : ℕ)
    → a ≡ x ∷ y
    → Has {A = Run} (a, u) (runs r prev (a ++ u))
    → Has {A = Run} (b, t) (star_runs (runs r) n (last_or prev a) u)
    → Has {A = Run} (a ++ b, t) (star_runs (runs r) (suc n) prev (a ++ u))
unfolding star_runs
Has-star_step r prev a u b t x y n f here later =
    let rest : Text → Text → List Run = λ d w. star_runs (runs r) n (last_or prev d) w in
    Has-append_left {A = Run} (a ++ b, t) (follow (nonempty (runs r prev (a ++ u))) rest)
      (([], a ++ u) ∷ [])
      (Has-follow rest a u (a ++ b, t) (nonempty (runs r prev (a ++ u)))
        (subst (λ d. Has {A = Run} (d, u) (nonempty (runs r prev (a ++ u)))) (sym f)
          (Has-nonempty x y u (runs r prev (a ++ u))
            (subst (λ d. Has {A = Run} (d, u) (runs r prev (a ++ u))) f here)))
        (Has-prepend a b t (rest a u) later))

length-of_more :
    (c a b : Text) (x : ℕ) (y t : Text) (n : ℕ)
    → c ≡ a ++ b
    → a ≡ x ∷ y
    → length (c ++ t) ≤ suc n
    → length (b ++ t) ≤ n
length-of_more c a b x y t n g f h = omega (
  arith,
  ap length g,
  ap length f,
  length-append {0} a b,
  length-append {0} c t,
  length-append {0} b t,
)

length-ne-zero :
    (c a b : Text) (x : ℕ) (y t : Text) → c ≡ a ++ b → a ≡ x ∷ y → ¬ (length (c ++ t) ≤ 0)
length-ne-zero c a b x y t g f h =
    omega (arith, ap length g, ap length f, length-append {0} a b, length-append {0} c t)

star_runs_complete :
    (r : Regex) (prev : Option ℕ) (c t : Text)
    → Matches (star r) prev c t
    → Reaches r
    → (n : ℕ) → length (c ++ t) ≤ n
    → Has {A = Run} (c, t) (star_runs (runs r) n prev (c ++ t))
star_runs_complete r prev c t m_stop reach zero h = unfold star_runs in inl refl
star_runs_complete r prev c t m_stop reach (suc n) h =
    unfold star_runs in
    Has-append_right {A = Run} ([], t)
      (follow (nonempty (runs r prev t)) (λ a u. star_runs (runs r) n (last_or prev a) u))
      (([], t) ∷ []) (inl refl)
star_runs_complete r prev c t (m_more {x = x} {y = y} {a = a} {b = b} p f q g) reach zero h =
    absurd (length-ne-zero c a b x y t g f h)
star_runs_complete r prev c t (m_more {x = x} {y = y} {a = a} {b = b} p f q g) reach (suc n) h =
    let later =
      star_runs_complete r (last_or prev a) b t q reach n (length-of_more c a b x y t n g f h) in
    rw (g, append_assoc a b t)
      (Has-star_step r prev a (b ++ t) b t x y n f (reach prev a (b ++ t) p) later)

Has-when : (b : Bool) (t : Text) → b ≡ true → Has {A = Run} ([], t) (when b t)
Has-when true t h = inl refl
Has-when false t h = cc

-- Every match is among the runs.
pub runs_complete : (r : Regex) → Reaches r
unfolding runs
runs_complete eps prev a t m_eps = inl refl
runs_complete (set p) prev a t (m_set e) = rw e (inl refl)
runs_complete (seq r s) prev c t (m_seq {a = a} {b = b} p q g) =
    rw (g, append_assoc a b t)
      (Has-follow (λ d w. runs s (last_or prev d) w) a (b ++ t) (a ++ b, t)
        (runs r prev (a ++ (b ++ t))) (runs_complete r prev a (b ++ t) p)
        (Has-prepend a b t (runs s (last_or prev a) (b ++ t))
          (runs_complete s (last_or prev a) b t q)))
runs_complete (alt r s) prev a t (m_left m) =
    Has-append_left {A = Run} (a, t) (runs r prev (a ++ t)) (runs s prev (a ++ t))
      (runs_complete r prev a t m)
runs_complete (alt r s) prev a t (m_right m) =
    Has-append_right {A = Run} (a, t) (runs r prev (a ++ t)) (runs s prev (a ++ t))
      (runs_complete s prev a t m)
runs_complete (star r) prev a t m =
    star_runs_complete r prev a t m (runs_complete r) (length (a ++ t)) (omega arith)
runs_complete bound prev a t (m_bound h) = Has-when _ t h
runs_complete at_start prev a t (m_start h) = Has-when _ t h
runs_complete at_end prev a t (m_end h) = Has-when _ t h
runs_complete at_eol prev a t (m_eol h) = Has-when _ t h
