-- ===== src/ShellGuard/Tiers.antt =====
-- Each tier of shell_guard.py against what it looks for.
use omnicursor.Prelude.{
  ◌≡◌, refl, ap, ◌∙◌, true, false, not, ◌&&◌, none, some, List, [], ◌∷◌, ◌⊎◌, inl, inr, arith,
  Bool-cases, Has, and-eq-true,
}
use omnicursor.Text.{Text}
use omnicursor.Json.{Json}
use omnicursor.Regex.{re_search}
use omnicursor.Regex.Matches.{Occurs}
use omnicursor.Regex.Search.{re_search_iff}
use omnicursor.ShellGuard.{
  World, Response, allowed, denied, warned, first_hard, claim_match, dispatch_loop,
  dispatch_message, soft_tier, soft_message,
}
use omnicursor.ShellGuard.Patterns.{Pattern, Warning}

-- A listed pattern that occurs in the command.
pub record Found (ps : List Pattern) (command : Text) (p : Pattern) : Type 0 where
  pub listed : Has p ps
  pub occurs : Occurs p.regex none command

pub first_hard-Found :
    (command : Text) (ps : List Pattern) (p : Pattern)
    → first_hard command ps ≡ some p
    → Found ps command p
unfolding first_hard
first_hard-Found command [] p h = cc
first_hard-Found command (q ∷ ps) p h = elim (Bool-cases (re_search q.regex command)) [
  | inl e ↦
      let same_pattern : q ≡ p = ground arith in
      record {
        listed = inl same_pattern;
        occurs = rw (← same_pattern) ((re_search_iff q.regex command).0 e);
      }
  | inr e ↦
      let rest = first_hard-Found command ps p (rw e at h) in
      record { listed = inr rest.listed; occurs = rest.occurs }
]

pub first_hard_total :
    (command : Text) (ps : List Pattern) (p : Pattern)
    → Found ps command p
    → (q : Pattern) × (first_hard command ps ≡ some q)
unfolding first_hard
first_hard_total command [] p f = absurd f.listed
first_hard_total command (q ∷ ps) p f = elim (Bool-cases (re_search q.regex command)) [
  | inl e ↦ (q, rw e)
  | inr e ↦ elim f.listed [
    | inl same_pattern ↦
        let hit : re_search p.regex command ≡ true = (re_search_iff p.regex command).1 f.occurs in
        cc (hit, e, ap (λ (x : Pattern). re_search x.regex command) same_pattern)
    | inr later ↦
        let (r, g) = first_hard_total command ps p (record { listed = later; occurs = f.occurs }) in
        (r, rw e g)
  ]
]

-- A listed warning whose pattern occurs in the command.
pub record Warns (ss : List Warning) (command : Text) (s : Warning) : Type 0 where
  pub listed : Has s ss
  pub occurs : Occurs s.pattern.regex none command

pub soft_tier-cases :
    (command : Text) (ss : List Warning)
    → (soft_tier command ss ≡ allowed)
      ⊎ ((s : Warning) × Warns ss command s
          × (soft_tier command ss ≡ warned (soft_message s.reason)))
unfolding soft_tier
soft_tier-cases command [] = inl refl
soft_tier-cases command (s ∷ ss) = elim (Bool-cases (re_search s.pattern.regex command)) [
  | inl e ↦ inr (
    s,
    record { listed = inl refl; occurs = (re_search_iff s.pattern.regex command).0 e },
    rw e refl,
  )
  | inr e ↦ elim (soft_tier-cases command ss) [
    | inl clear ↦ inl (rw e clear)
    | inr (t, found, shown) ↦
        inr (t, record { listed = inr found.listed; occurs = found.occurs }, rw e shown)
  ]
]

-- The claim is missing, and one of the patterns is found in the command.
pub record Unclaimed (w : World) (conversation_id command : Text) (pats : List Json) : Type 0 where
  pub pattern : Json
  pub listed : Has pattern pats
  pub found : claim_match w command pattern ≡ true
  pub missing : w.claim_exists conversation_id ≡ false

pub dispatch_loop-Unclaimed :
    (w : World) (conversation_id command : Text) (pats : List Json) (r : Response)
    → dispatch_loop w conversation_id command pats ≡ some r
    → Unclaimed w conversation_id command pats
      × (r ≡ denied (dispatch_message (w.claim_path conversation_id)))
unfolding dispatch_loop
dispatch_loop-Unclaimed w c command [] r h = cc
dispatch_loop-Unclaimed w c command (pat ∷ pats) r h =
    elim (Bool-cases (claim_match w command pat && not (w.claim_exists c))) [
      | inl e ↦
          let (found, unclaimed) = and-eq-true _ _ e in
          (
            record { pattern = pat; listed = inl refl; found = found; missing = ground arith },
            ground arith,
          )
      | inr e ↦
          let (u, shown) = dispatch_loop-Unclaimed w c command pats r (rw e at h) in
          (
            record {
              pattern = u.pattern;
              listed = inr u.listed;
              found = u.found;
              missing = u.missing;
            },
            shown,
          )
    ]

pub dispatch_loop_denies :
    (w : World) (conversation_id command : Text) (pats : List Json)
    → Unclaimed w conversation_id command pats
    → dispatch_loop w conversation_id command pats
      ≡ some (denied (dispatch_message (w.claim_path conversation_id)))
unfolding dispatch_loop
dispatch_loop_denies w c command [] u = absurd u.listed
dispatch_loop_denies w c command (pat ∷ pats) u = elim u.listed [
  | inl e ↦
      let found : claim_match w command pat ≡ true =
        ap (λ p. claim_match w command p) e ∙ u.found in
      rw (found, u.missing) refl
  | inr later ↦
      let rest =
        dispatch_loop_denies w c command pats
          (record { pattern = u.pattern; listed = later; found = u.found; missing = u.missing }) in
      ground arith
]
