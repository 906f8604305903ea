-- ===== src/Daemon/Claims.antt =====
-- Who claims the stamp.
use omnicursor.Prelude.{
  ℕ, ◌+◌, ◌-◌, ◌≤◌, ◌<◌, ◌≡◌, refl, ap, ◌∙◌, sym, subst, ◌≢◌, false≢true, Bool, true, false, Option,
  none, some, List, [], ◌∷◌, length, not, ◌==◌, if◌then◌else◌, arith, Bool-cases, inl, inr,
}
use omnicursor.Daemon.Stamp.{
  spawn_stamp_ttl, Pc, idle, found, stale, retry, done, is_fresh, claim_step, System, set_pc,
  advance, Step, run, wait, fail, Reach, start, later, fresh_start, drive,
}

-- A caller that has lost, or has not yet got behind the test of the age.
abbrev Behind : Pc → Type 0
Behind idle = Unit
Behind found = Unit
Behind stale = ⊥
Behind retry = ⊥
Behind (done won) = won ≡ false

-- Without the stamp nobody has begun; with it one caller has won, and the others lose.
record Won (t0 mtime now : ℕ) (pc : ℕ → Pc) : Type 0 where
  pub born : t0 ≤ mtime
  pub past : mtime ≤ now
  pub winner : ℕ
  pub won : pc winner ≡ done true
  pub rest : (j : ℕ) → j ≢ winner → Behind (pc j)

abbrev Claimed : ℕ → ℕ → (ℕ → Pc) → Option ℕ → Type 0
Claimed t0 now pc none = (t0 ≤ now) × ((j : ℕ) → pc j ≡ idle)
Claimed t0 now pc (some mtime) = Won t0 mtime now pc

-- what one call of a caller behind leads to, while the stamp is fresh
Behind-claim_step :
    (now mtime : ℕ) (p : Pc)
    → is_fresh now mtime ≡ true
    → Behind p
    → Behind (claim_step now p (some mtime)).0 × ((claim_step now p (some mtime)).1 ≡ some mtime)
unfolding claim_step
Behind-claim_step now mtime idle f h = (tt, refl)
Behind-claim_step now mtime found f h = rw f (refl, refl)
Behind-claim_step now mtime stale f h = absurd h
Behind-claim_step now mtime retry f h = absurd h
Behind-claim_step now mtime (done won) f h = (h, refl)

set_pc-same : (pc : ℕ → Pc) (i : ℕ) (p : Pc) → set_pc pc i p i ≡ p
set_pc-same pc i p = ground arith

set_pc-other : (pc : ℕ → Pc) (i j : ℕ) (p : Pc) → j ≢ i → set_pc pc i p j ≡ pc j
set_pc-other pc i j p h = ground (arith, h)

Behind-set_pc :
    (pc : ℕ → Pc) (i j : ℕ) (p : Pc) → Behind p → Behind (pc j) → Behind (set_pc pc i p j)
Behind-set_pc pc i j p h k = elim (Bool-cases (i == j)) [ inl e ↦ rw e h | inr e ↦ rw e k ]

-- the first call makes its caller the winner
first-Won :
    (t0 now : ℕ) (pc : ℕ → Pc) (i : ℕ)
    → t0 ≤ now
    → ((j : ℕ) → pc j ≡ idle)
    → Won t0 now now (set_pc pc i (done true))
first-Won t0 now pc i le idles = record {
  born = le;
  past = omega arith;
  winner = i;
  won = set_pc-same pc i (done true);
  rest = λ j ne. rw (set_pc-other pc i j (done true) ne, idles j) tt;
}

-- the call of a caller that has won changes nothing, that of another leaves it behind
next-Won :
    (t0 mtime now : ℕ) (pc : ℕ → Pc) (i : ℕ)
    → is_fresh now mtime ≡ true
    → Won t0 mtime now pc
    → Claimed t0 now
        (set_pc pc i (claim_step now (pc i) (some mtime)).0)
        (claim_step now (pc i) (some mtime)).1
next-Won t0 mtime now pc i f h = elim (Bool-cases (i == h.winner)) [
  | inl e ↦
      let same : i ≡ h.winner = ground (arith, e) in
      let mine : pc i ≡ done true = ap pc same ∙ h.won in
      rw mine (
        unfold claim_step in
        record {
          born = h.born;
          past = h.past;
          winner = i;
          won = set_pc-same pc i (done true);
          rest =
              λ j ne. rw (set_pc-other pc i j (done true) ne) (h.rest j (λ k. ne (k ∙ sym same)));
        })
  | inr e ↦
      let other : i ≢ h.winner = ground (arith, e) in
      let (behind, kept) = Behind-claim_step now mtime (pc i) f (h.rest i other) in
      rw kept (record {
        born = h.born;
        past = h.past;
        winner = h.winner;
        won = set_pc-other pc i h.winner _ (λ k. other (sym k)) ∙ h.won;
        rest = λ j ne. Behind-set_pc pc i j _ behind (h.rest j ne);
      })
]

advance-Claimed :
    (t0 now : ℕ) (pc : ℕ → Pc) (i : ℕ) (stamp : Option ℕ)
    → now ≤ t0 + spawn_stamp_ttl
    → Claimed t0 now pc stamp
    → Claimed t0 now (set_pc pc i (claim_step now (pc i) stamp).0) (claim_step now (pc i) stamp).1
unfolding is_fresh
advance-Claimed t0 now pc i none le (past, idles) =
    rw (idles i) (unfold claim_step in first-Won t0 now pc i past idles)
advance-Claimed t0 now pc i (some mtime) le h =
    let born = h.born in next-Won t0 mtime now pc i (ground (arith, born, le)) h

wait-Claimed :
    (t0 now d : ℕ) (pc : ℕ → Pc) (stamp : Option ℕ)
    → Claimed t0 now pc stamp
    → Claimed t0 (now + d) pc stamp
wait-Claimed t0 now d pc none (past, idles) = (omega (arith, past), idles)
wait-Claimed t0 now d pc (some mtime) h = record {
  born = h.born;
  past = let past = h.past in omega (arith, past);
  winner = h.winner;
  won = h.won;
  rest = h.rest;
}

now-le : {s t : System} → Step false s t → s.now ≤ t.now
now-le (run i) = omega arith
now-le (wait d) = omega arith
now-le (fail i e) = absurd (false≢true e)

Reach-Claimed :
    {t0 : ℕ} {s : System}
    → Reach false (fresh_start none t0) s
    → s.now ≤ t0 + spawn_stamp_ttl
    → Claimed t0 s.now s.pc s.stamp
Reach-Claimed start le = (omega arith, λ j. refl)
Reach-Claimed {t0} (later {t} r (run i)) le =
    advance-Claimed t0 t.now t.pc i t.stamp le (Reach-Claimed r le)
Reach-Claimed {t0} (later {t} r (wait d)) le =
    wait-Claimed t0 t.now d t.pc t.stamp (Reach-Claimed r (omega (arith, le)))
Reach-Claimed (later r (fail i e)) le = absurd (false≢true e)

only-winner :
    {t0 mtime now : ℕ} {pc : ℕ → Pc} (h : Won t0 mtime now pc) (i : ℕ)
    → pc i ≡ done true
    → i ≡ h.winner
only-winner {pc = pc} h i e = elim (Bool-cases (i == h.winner)) [
  | inl k ↦ ground (arith, k)
  | inr k ↦
      let lost : Behind (done true) = subst Behind e (h.rest i (ground (arith, k))) in
      absurd (false≢true (sym lost))
]

winner_unique :
    (t0 now : ℕ) (pc : ℕ → Pc) (stamp : Option ℕ) (i j : ℕ)
    → Claimed t0 now pc stamp
    → pc i ≡ done true
    → pc j ≡ done true
    → i ≡ j
winner_unique t0 now pc none i j (past, idles) e f = absurd (cc (e, idles i))
winner_unique t0 now pc (some mtime) i j h e f = only-winner h i e ∙ sym (only-winner h j f)

-- Where the stamp is not there at first, and for as long as one that is made then is fresh, at most
-- one caller claims it, however the calls of any number of callers interleave and whatever time
-- passes between them. No call meets an error but a file that is or is not there.
pub claim_unique :
    {t0 : ℕ} {s : System} (i j : ℕ)
    → Reach false (fresh_start none t0) s
    → s.now ≤ t0 + spawn_stamp_ttl
    → s.pc i ≡ done true
    → s.pc j ≡ done true
    → i ≡ j
claim_unique {t0} {s} i j r le e f =
    winner_unique t0 s.now s.pc s.stamp i j (Reach-Claimed r le) e f

-- the stamp is not there, or too old
pub claimable : ℕ → Option ℕ → Bool
claimable now none = true
claimable now (some mtime) = not (is_fresh now mtime)

-- the state in which both callers have seen the old stamp
abbrev both_saw : ℕ → ℕ → System
both_saw mtime now = advance (advance (advance (advance (fresh_start (some mtime) now) 0) 1) 0) 1

-- then each removes the stamp that it finds and makes another
abbrev both_made : ℕ → ℕ → System
both_made mtime now = advance (advance (advance (advance (both_saw mtime now) 0) 0) 1) 1

both_win :
    (mtime now : ℕ)
    → is_fresh now mtime ≡ false
    → ((both_made mtime now).pc 0 ≡ done true) × ((both_made mtime now).pc 1 ≡ done true)
unfolding claim_step
both_win mtime now e = rw e (refl, refl)

-- A stamp that is too old lets two callers claim it: one removes it and makes its own, the other,
-- which has seen the old one, removes that and makes another.
pub claim-twice :
    (mtime now : ℕ)
    → mtime + spawn_stamp_ttl < now
    → (s : System) × Reach false (fresh_start (some mtime) now) s
      × (s.pc 0 ≡ done true)
      × (s.pc 1 ≡ done true)
unfolding is_fresh
claim-twice mtime now old =
    let (first, second) = both_win mtime now (ground (arith, old)) in
    let saw = later (later (later (later start (run 0)) (run 1)) (run 0)) (run 1) in
    (
      both_made mtime now,
      later (later (later (later saw (run 0)) (run 0)) (run 1)) (run 1),
      first,
      second,
    )

-- how many calls a caller has left at most
abbrev left : Pc → ℕ
left idle = 4
left found = 3
left stale = 2
left retry = 1
left (done won) = 0

left-claim_step :
    (now : ℕ) (p : Pc) (stamp : Option ℕ) → left (claim_step now p stamp).0 ≤ left p - 1
unfolding claim_step
left-claim_step now idle none = omega arith
left-claim_step now idle (some mtime) = omega arith
left-claim_step now found none = omega arith
left-claim_step now found (some mtime) = ground arith
left-claim_step now stale stamp = omega arith
left-claim_step now retry none = omega arith
left-claim_step now retry (some mtime) = omega arith
left-claim_step now (done won) stamp = omega arith

left-drive :
    (p : Pc) (views : List (ℕ × Option ℕ))
    → left p ≤ length views
    → (won : Bool) × (drive p views ≡ done won)
unfolding drive
left-drive idle [] le = absurd (omega (arith, le))
left-drive found [] le = absurd (omega (arith, le))
left-drive stale [] le = absurd (omega (arith, le))
left-drive retry [] le = absurd (omega (arith, le))
left-drive (done won) [] le = (won, refl)
left-drive p ((now, stamp) ∷ views) le =
    let down = left-claim_step now p stamp in
    left-drive (claim_step now p stamp).0 views (omega (arith, le, down))

-- A caller returns at its fourth call at the latest, whatever times and stamps its calls meet.
drive-done :
    (views : List (ℕ × Option ℕ)) → 4 ≤ length views → (won : Bool) × (drive idle views ≡ done won)
drive-done views le = left-drive idle views le

-- A lone caller that has not begun has returned after four calls: it wins exactly if the stamp is
-- not there or too old, and then leaves a stamp of the present time; else the stamp stays.
pub alone :
    (now : ℕ) (stamp : Option ℕ)
    → let s = advance (advance (advance (advance (fresh_start stamp now) 0) 0) 0) 0 in
      (s.pc 0 ≡ done (claimable now stamp))
      × (s.stamp ≡ (if claimable now stamp then some now else stamp))
unfolding claim_step claimable
alone now none = (refl, refl)
alone now (some mtime) = elim (Bool-cases (is_fresh now mtime)) [
  | inl e ↦ rw e (refl, refl)
  | inr e ↦ rw e (refl, refl)
]
