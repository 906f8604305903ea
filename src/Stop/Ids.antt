-- ===== src/Stop/Ids.antt =====
-- The identifiers of the payload in stop.py.
use omnicursor.Prelude.{
  ◌≡◌, refl, sym, subst, ◌↔◌, true, false, List, [], ◌∷◌, ◌++◌, get_or, ◌⊎◌, inl, inr, Has,
  Has-append_left, Has-append_right, Bool-cases,
}
use omnicursor.Json.{Json}
use omnicursor.Text.{Text, codes, is_empty}
use omnicursor.Keywords.{member, member_iff}
use omnicursor.Event.{Event, is_event}
use omnicursor.Stop.{set_add, Summary}
use omnicursor.Stop.Payload.{
  Gathered, gather_ids, gather_event, gather, nothing_gathered, build_outbox_payload,
}

-- No text twice.
pub Distinct : List Text → Type 0
Distinct [] = Unit
Distinct (x ∷ xs) = ¬ Has x xs × Distinct xs

Has-split : (x : Text) (xs ys : List Text) → Has x (xs ++ ys) → Has x xs ⊎ Has x ys
Has-split x [] ys h = inr h
Has-split x (y ∷ xs) ys (inl e) = inl (inl e)
Has-split x (y ∷ xs) ys (inr h) = elim (Has-split x xs ys h) [ inl k ↦ inl (inr k) | inr k ↦ inr k ]

Distinct-snoc : (x : Text) (xs : List Text) → ¬ Has x xs → Distinct xs → Distinct (xs ++ x ∷ [])
unfolding Distinct
Distinct-snoc x [] h d = ((λ k. k), tt)
Distinct-snoc x (y ∷ xs) h (n, d) = (
  λ k. elim (Has-split y xs (x ∷ []) k) [
    | inl old ↦ n old
    | inr (inl e) ↦ h (inl (sym e))
    | inr (inr e) ↦ e
  ],
  Distinct-snoc x xs (λ k. h (inr k)) d,
)

set_add-Distinct : (x : Text) (xs : List Text) → Distinct xs → Distinct (set_add x xs)
unfolding set_add
set_add-Distinct x xs d = elim (Bool-cases (member x xs)) [
  | inl e ↦ rw e d
  | inr e ↦ rw e (Distinct-snoc x xs (λ k. let f = (member_iff x xs).1 k in cc (e, f)) d)
]

set_add-Has : (y x : Text) (xs : List Text) → Has y (set_add x xs) ↔ (Has y xs ⊎ (x ≡ y))
unfolding set_add
set_add-Has y x xs = elim (Bool-cases (member x xs)) [
  | inl e ↦ rw e (
    λ h. inl h,
    λ k. elim k [ inl h ↦ h | inr p ↦ subst (λ z. Has z xs) p ((member_iff x xs).0 e) ],
  )
  | inr e ↦ rw e (
    λ h. elim (Has-split y xs (x ∷ []) h) [
      | inl a ↦ inl a
      | inr (inl p) ↦ inr p
      | inr (inr z) ↦ absurd z
    ],
    λ k. elim k [
      | inl h ↦ Has-append_left y xs (x ∷ []) h
      | inr p ↦ Has-append_right y xs (x ∷ []) (inl p)
    ],
  )
]

-- a member of the list that is no empty text
abbrev pub Named : Text → List Text → Type 0
Named pid [] = ⊥
Named pid (q ∷ pids) = (is_empty q ≡ false) × (q ≡ pid) ⊎ Named pid pids

gather_ids-Has :
    (pid : Text) (pids seen : List Text)
    → Has pid (gather_ids pids seen) ↔ (Has pid seen ⊎ Named pid pids)
unfolding gather_ids
gather_ids-Has pid [] seen = (λ h. inl h, λ k. elim k [ inl h ↦ h | inr z ↦ absurd z ])
gather_ids-Has pid (q ∷ pids) seen = elim (Bool-cases (is_empty q)) [
  | inl e ↦
      let (there, back) = gather_ids-Has pid pids seen in
      rw e (
        λ h. elim (there h) [ inl a ↦ inl a | inr b ↦ inr (inr b) ],
        λ k. elim k [
          | inl a ↦ back (inl a)
          | inr (inl (n, p)) ↦ absurd (cc (n))
          | inr (inr b) ↦ back (inr b)
        ],
      )
  | inr e ↦
      let (there, back) = gather_ids-Has pid pids (set_add q seen) in
      let (out, into) = set_add-Has pid q seen in
      rw e (
        λ h. elim (there h) [
          | inl a ↦ elim (out a) [ inl b ↦ inl b | inr p ↦ inr (inl (refl, p)) ]
          | inr b ↦ inr (inr b)
        ],
        λ k. elim k [
          | inl a ↦ back (inl (into (inl a)))
          | inr (inl (n, p)) ↦ back (inl (into (inr p)))
          | inr (inr b) ↦ back (inr b)
        ],
      )
]

gather_ids-Distinct : (pids seen : List Text) → Distinct seen → Distinct (gather_ids pids seen)
unfolding gather_ids
gather_ids-Distinct [] seen d = d
gather_ids-Distinct (q ∷ pids) seen d = elim (Bool-cases (is_empty q)) [
  | inl e ↦ rw e (gather_ids-Distinct pids seen d)
  | inr e ↦ rw e (gather_ids-Distinct pids (set_add q seen) (set_add-Distinct q seen d))
]

-- Some `prompt_classified` event names the identifier.
pub NamedBy : Text → List Event → Type 0
NamedBy pid [] = ⊥
NamedBy pid (e ∷ es) =
    (is_event e (codes "prompt_classified") ≡ true) × Named pid (get_or e.injected_pattern_ids [])
    ⊎ NamedBy pid es

gather-on :
    (e : Event) (es : List Event) (g : Gathered)
    → is_event e (codes "prompt_classified") ≡ true
    → gather (e ∷ es) g ≡ gather es (gather_event e g)
unfolding gather
gather-on e es g h = rw h refl

gather-off :
    (e : Event) (es : List Event) (g : Gathered)
    → is_event e (codes "prompt_classified") ≡ false
    → gather (e ∷ es) g ≡ gather es g
unfolding gather
gather-off e es g h = rw h refl

gather_event-Has :
    (pid : Text) (e : Event) (g : Gathered)
    → Has pid (gather_event e g).seen_ids
      ↔ (Has pid g.seen_ids ⊎ Named pid (get_or e.injected_pattern_ids []))
unfolding gather_event
gather_event-Has pid e g = gather_ids-Has pid (get_or e.injected_pattern_ids []) g.seen_ids

gather_event-Distinct :
    (e : Event) (g : Gathered) → Distinct g.seen_ids → Distinct (gather_event e g).seen_ids
unfolding gather_event
gather_event-Distinct e g d = gather_ids-Distinct (get_or e.injected_pattern_ids []) g.seen_ids d

gather-Has :
    (pid : Text) (es : List Event) (g : Gathered)
    → Has pid (gather es g).seen_ids ↔ (Has pid g.seen_ids ⊎ NamedBy pid es)
unfolding NamedBy
gather-Has pid [] g = unfold gather in (λ h. inl h, λ k. elim k [ inl h ↦ h | inr z ↦ absurd z ])
gather-Has pid (e ∷ es) g = elim (Bool-cases (is_event e (codes "prompt_classified"))) [
  | inl x ↦
      let (there, back) = gather-Has pid es (gather_event e g) in
      let (out, into) = gather_event-Has pid e g in
      rw (gather-on e es g x, x)
        (
          λ h. elim (there h) [
            | inl a ↦ elim (out a) [ inl b ↦ inl b | inr p ↦ inr (inl (refl, p)) ]
            | inr b ↦ inr (inr b)
          ],
          λ k. elim k [
            | inl a ↦ back (inl (into (inl a)))
            | inr (inl (n, p)) ↦ back (inl (into (inr p)))
            | inr (inr b) ↦ back (inr b)
          ],
        )
  | inr x ↦
      let (there, back) = gather-Has pid es g in
      rw (gather-off e es g x, x)
        (
          λ h. elim (there h) [ inl a ↦ inl a | inr b ↦ inr (inr b) ],
          λ k. elim k [
            | inl a ↦ back (inl a)
            | inr (inl (n, p)) ↦ absurd (cc (n))
            | inr (inr b) ↦ back (inr b)
          ],
        )
]

gather-Distinct :
    (es : List Event) (g : Gathered) → Distinct g.seen_ids → Distinct (gather es g).seen_ids
gather-Distinct [] g d = unfold gather in d
gather-Distinct (e ∷ es) g d = elim (Bool-cases (is_event e (codes "prompt_classified"))) [
  | inl x ↦
      rw (gather-on e es g x) (gather-Distinct es (gather_event e g) (gather_event-Distinct e g d))
  | inr x ↦ rw (gather-off e es g x) (gather-Distinct es g d)
]

-- The payload lists each identifier once, and exactly those that are not empty and that some
-- `prompt_classified` event of the session names.
pub injected_pattern_ids_iff :
    (summary : Summary) (events : List Event) (conversation_id : Text) (correlation_id : Json)
    (ended_at : Text)
    → let ids =
        (build_outbox_payload summary events conversation_id correlation_id
          ended_at).injected_pattern_ids in
      Distinct ids × ((pid : Text) → Has pid ids ↔ NamedBy pid events)
unfolding build_outbox_payload
injected_pattern_ids_iff summary events conversation_id correlation_id ended_at = (
  gather-Distinct events nothing_gathered (unfold Distinct in tt),
  λ pid.
      let (there, back) = gather-Has pid events nothing_gathered in
      (λ h. elim (there h) [ inl z ↦ absurd z | inr k ↦ k ], λ k. back (inr k)),
)
