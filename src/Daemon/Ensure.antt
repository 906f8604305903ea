-- ===== src/Daemon/Ensure.antt =====
-- When a hook starts the daemon.
use omnicursor.Prelude.{
  ◌≡◌, refl, ap, ◌∙◌, subst, ◌↔◌, Bool, true, false, not, ◌||◌, some, arith, Bool-cases,
  Option-cases, inl, inr, and-eq-true,
}
use omnicursor.Text.{Text, codes, is_empty}
use omnicursor.Daemon.{
  Host, if_there, bundled_python, python_of, daemon_python, registry_path, spawn_script, Luck,
  spawn_if, ensure_with, ensure_daemon,
}

-- What it takes to start a daemon with the interpreter `py`.
pub record Starts (h : Host) (luck : Luck) (py : Text) : Type 0 where
  pub unanswered : luck.pinged ≡ false
  pub python : daemon_python h ≡ some py
  pub named : is_empty py ≡ false
  pub there : h.is_there py ≡ true
  pub registry : h.is_there (registry_path h) ≡ true
  pub dirs_made : luck.dirs_made ≡ true
  pub claimed : luck.claimed ≡ true

there-if_there : (h : Host) (path py : Text) → if_there h path ≡ some py → h.is_there py ≡ true
unfolding if_there
there-if_there h path py e = elim (Bool-cases (h.is_there path)) [
  | inl f ↦ let k : path ≡ py = cc (e, f) in subst (λ t. h.is_there t ≡ true) k f
  | inr f ↦ absurd (cc (e, f))
]

python-there : (h : Host) (py : Text) → daemon_python h ≡ some py → h.is_there py ≡ true
unfolding daemon_python python_of
python-there h py e = elim (Option-cases (h.environ (codes "OMNICURSOR_DAEMON_PYTHON"))) [
  | inl n ↦ there-if_there h (bundled_python h) py (rw n at e)
  | inr (env, n) ↦ elim (Bool-cases (is_empty env)) [
    | inl f ↦ there-if_there h (bundled_python h) py (rw (n, f) at e)
    | inr f ↦ there-if_there h (h.expanduser env) py (rw (n, f) at e)
  ]
]

spawns-spawn_if :
    (go : Bool) (made script : Text)
    → (spawn_if go made).spawned ≡ some script
    → (go ≡ true) × (made ≡ script)
unfolding spawn_if
spawns-spawn_if true made script e = (refl, cc (e))
spawns-spawn_if false made script e = absurd (cc (e))

Starts-of :
    (h : Host) (luck : Luck) (py script : Text)
    → luck.pinged ≡ false
    → daemon_python h ≡ some py
    → (ensure_with h luck (some py)).spawned ≡ some script
    → Starts h luck py × (spawn_script h py ≡ script)
unfolding ensure_with
Starts-of h luck py script quiet found e =
    elim (Bool-cases (is_empty py || not (h.is_there (registry_path h)))) [
      | inl f ↦ absurd (cc (rw f at e))
      | inr f ↦
          let (go, made) = spawns-spawn_if _ _ script (rw f at e) in
          let (dirs, claim) = and-eq-true _ _ go in
          (
            record {
              unanswered = quiet;
              python = found;
              named = ground (arith, f);
              there = python-there h py found;
              registry = ground (arith, f);
              dirs_made = dirs;
              claimed = claim;
            },
            made,
          )
    ]

Starts-from :
    (h : Host) (luck : Luck) (script : Text)
    → (ensure_daemon h luck).spawned ≡ some script
    → (py : Text) × Starts h luck py × (spawn_script h py ≡ script)
unfolding ensure_daemon ensure_with
Starts-from h luck script e = elim (Bool-cases luck.pinged) [
  | inl p ↦ absurd (cc (rw p at e))
  | inr p ↦ elim (Option-cases (daemon_python h)) [
    | inl n ↦ absurd (cc (rw (p, n) at e))
    | inr (py, n) ↦
        let (starts, made) = Starts-of h luck py script p n (rw (p, n) at e) in (py, starts, made)
  ]
]

Starts-to :
    (h : Host) (luck : Luck) (py : Text)
    → Starts h luck py
    → (ensure_daemon h luck).spawned ≡ some (spawn_script h py)
unfolding ensure_daemon ensure_with spawn_if
Starts-to h luck py k =
    rw (k.unanswered, k.python, k.named, k.registry, k.dirs_made, k.claimed) refl

-- The hook starts a script exactly if no daemon answers, an interpreter with a name and the registry
-- are there, the directories can be made and the stamp is claimed; and the script is then the one
-- that runs that interpreter.
pub ensure_daemon_iff :
    (h : Host) (luck : Luck) (script : Text)
    → ((ensure_daemon h luck).spawned ≡ some script)
      ↔ ((py : Text) × Starts h luck py × (spawn_script h py ≡ script))
ensure_daemon_iff h luck script =
    (Starts-from h luck script, λ (py, starts, made). Starts-to h luck py starts ∙ ap some made)
