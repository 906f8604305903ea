-- ===== src/Agents/Loading.antt =====
-- When the agents can be reloaded, and what a reload leaves.
use omnicursor.Prelude.{
  ◌≡◌, refl, ◌⊎◌, true, false, Option, none, some, List, [], ◌∷◌, All, All-map, Bool-cases, inl,
  inr,
}
use omnicursor.Text.{Text, is_empty}
use omnicursor.Json.{Error, Result, ok, raised, type_error, ◌>>=◌}
use omnicursor.Scoring.{Agent}
use omnicursor.Agents.Contexts.{agent_contexts}
use omnicursor.Agents.{
  AgentFile, unreadable, malformed, undecodable, no_object, unhashable, invalid, holds, Contexts,
  load_from, load_json_agents, read_raw, hashed, merge_contexts, Globals, rebuild, after_raw,
  after_load, reload_agents,
}

-- The file is an object with a category that is text, or none, and it makes an agent where it has
-- one; or it is passed over since it cannot be opened or is no JSON.
pub Loadable : Text × AgentFile → Type 0
Loadable (stem, unreadable) = Unit
Loadable (stem, malformed) = Unit
Loadable (stem, undecodable) = ⊥
Loadable (stem, no_object) = ⊥
Loadable (stem, unhashable refused) = ⊥
Loadable (stem, invalid agent) = is_empty agent.category ≡ true
Loadable (stem, holds raw) = Unit

-- `_load_json_agents` gets past the file: it passes over a category that cannot be hashed.
Passed : Text × AgentFile → Type 0
unfolding Loadable
Passed (stem, unhashable refused) = refused ≡ false
Passed file = Loadable file

Loadable-Passed : (file : Text × AgentFile) → Loadable file → Passed file
unfolding Passed Loadable
Loadable-Passed (stem, unreadable) h = h
Loadable-Passed (stem, malformed) h = h
Loadable-Passed (stem, undecodable) h = absurd h
Loadable-Passed (stem, no_object) h = absurd h
Loadable-Passed (stem, unhashable refused) h = absurd h
Loadable-Passed (stem, invalid agent) h = h
Loadable-Passed (stem, holds raw) h = h

load_from-ok :
    (files : List (Text × AgentFile)) (result : Contexts)
    → All Passed files
    → (d : Contexts) × (load_from result files ≡ ok d)
unfolding load_from Passed Loadable
load_from-ok [] result h = (result, refl)
load_from-ok ((stem, unreadable) ∷ files) result (_, h) = load_from-ok files result h
load_from-ok ((stem, malformed) ∷ files) result (_, h) = load_from-ok files result h
load_from-ok ((stem, undecodable) ∷ files) result (k, h) = absurd k
load_from-ok ((stem, no_object) ∷ files) result (k, h) = absurd k
load_from-ok ((stem, unhashable refused) ∷ files) result (k, h) = rw k (load_from-ok files result h)
load_from-ok ((stem, invalid agent) ∷ files) result (k, h) = rw k (load_from-ok files result h)
load_from-ok ((stem, holds raw) ∷ files) result (_, h) = load_from-ok files _ h

load_from-Passed :
    (files : List (Text × AgentFile)) (result d : Contexts)
    → load_from result files ≡ ok d
    → All Passed files
unfolding load_from Passed Loadable
load_from-Passed [] result d e = tt
load_from-Passed ((stem, unreadable) ∷ files) result d e = (tt, load_from-Passed files result d e)
load_from-Passed ((stem, malformed) ∷ files) result d e = (tt, load_from-Passed files result d e)
load_from-Passed ((stem, undecodable) ∷ files) result d e = absurd (cc (e))
load_from-Passed ((stem, no_object) ∷ files) result d e = absurd (cc (e))
load_from-Passed ((stem, unhashable true) ∷ files) result d e = absurd (cc (e))
load_from-Passed ((stem, unhashable false) ∷ files) result d e =
    (refl, load_from-Passed files result d e)
load_from-Passed ((stem, invalid agent) ∷ files) result d e =
    elim (Bool-cases (is_empty agent.category)) [
      | inl f ↦ (f, load_from-Passed files result d (rw f at e))
      | inr f ↦ absurd (cc (rw f at e))
    ]
load_from-Passed ((stem, holds raw) ∷ files) result d e = (tt, load_from-Passed files _ d e)

read_raw-whole : (files : List (Text × AgentFile)) → All Passed files → (read_raw files).1 ≡ none
unfolding read_raw Passed Loadable
read_raw-whole [] h = refl
read_raw-whole ((stem, unreadable) ∷ files) (_, h) = read_raw-whole files h
read_raw-whole ((stem, malformed) ∷ files) (_, h) = read_raw-whole files h
read_raw-whole ((stem, undecodable) ∷ files) (k, h) = absurd k
read_raw-whole ((stem, no_object) ∷ files) (k, h) = absurd k
read_raw-whole ((stem, unhashable refused) ∷ files) (_, h) = read_raw-whole files h
read_raw-whole ((stem, invalid agent) ∷ files) (_, h) = read_raw-whole files h
read_raw-whole ((stem, holds raw) ∷ files) (_, h) = read_raw-whole files h

-- What the set of the categories comes to: every file is loadable, or a TypeError.
Hashed : List (Text × AgentFile) → Result (List Agent) → Type 0
Hashed files o =
    ((agents : List Agent) × (o ≡ ok agents) × All Loadable files)
    ⊎ ((o ≡ raised type_error) × ¬ All Loadable files)

Hashed-over :
    (file : Text × AgentFile) (files : List (Text × AgentFile)) (o : Result (List Agent))
    → Loadable file
    → Hashed files o
    → Hashed (file ∷ files) o
unfolding Hashed
Hashed-over file files o k (inl (agents, e, h)) = inl (agents, e, (k, h))
Hashed-over file files o k (inr (e, h)) = inr (e, λ a. h a.1)

Hashed-cons :
    (file : Text × AgentFile) (files : List (Text × AgentFile)) (o : Result (List Agent))
    (agent : Agent)
    → Loadable file
    → Hashed files o
    → Hashed (file ∷ files) (o >>= λ rest. ok (agent ∷ rest))
unfolding Hashed
Hashed-cons file files o agent k (inl (agents, e, h)) = inl (agent ∷ agents, rw e refl, (k, h))
Hashed-cons file files o agent k (inr (e, h)) = inr (rw e refl, λ a. h a.1)

hashed-Hashed :
    (files : List (Text × AgentFile)) → All Passed files → Hashed files (hashed (read_raw files).0)
unfolding read_raw hashed Passed
hashed-Hashed [] h = unfold Hashed in inl ([], refl, tt)
hashed-Hashed ((stem, unreadable) ∷ files) (k, h) = Hashed-over _ files _ k (hashed-Hashed files h)
hashed-Hashed ((stem, malformed) ∷ files) (k, h) = Hashed-over _ files _ k (hashed-Hashed files h)
hashed-Hashed ((stem, undecodable) ∷ files) (k, h) = absurd (unfold Loadable in k)
hashed-Hashed ((stem, no_object) ∷ files) (k, h) = absurd (unfold Loadable in k)
hashed-Hashed ((stem, unhashable refused) ∷ files) (k, h) =
    unfold Hashed Loadable in inr (refl, λ a. a.0)
hashed-Hashed ((stem, invalid agent) ∷ files) (k, h) =
    Hashed-cons _ files _ agent k (hashed-Hashed files h)
hashed-Hashed ((stem, holds raw) ∷ files) (k, h) =
    Hashed-cons _ files _ raw.agent k (hashed-Hashed files h)

-- A reload that raises has left everything as it was; or, by a TypeError for a category that cannot be
-- hashed, it has the new agents of the files next to the old registry.
pub Stopped : Globals → List (Text × AgentFile) → Error → Globals → Type 0
Stopped before files e after =
    (after ≡ before)
    ⊎ ((e ≡ type_error)
        × (load_json_agents files ≡ ok after.json_agents)
        × (after.registry ≡ before.registry))

-- The answers of a reload.
pub data Reload (before : Globals) (files : List (Text × AgentFile))
    (answer : Globals × Option Error) : Type 0 where
  done :
      answer.1 ≡ none
      → All Loadable files
      → load_json_agents files ≡ ok answer.0.json_agents
      → answer.0.registry.merged ≡ merge_contexts agent_contexts answer.0.json_agents
      → Reload before files answer
  failed :
      (e : Error)
      → answer.1 ≡ some e
      → ¬ All Loadable files
      → Stopped before files e answer.0
      → Reload before files answer

rebuild-Reload :
    (before : Globals) (files : List (Text × AgentFile)) (json : Contexts) (raw : List AgentFile)
    (o : Result (List Agent))
    → load_json_agents files ≡ ok json
    → Hashed files o
    → Reload before files (rebuild (record before { json_agents = json; raw_json_agents = raw }) o)
unfolding rebuild Hashed Stopped
rebuild-Reload before files json raw o loaded (inl (agents, e, h)) = rw e (done refl h loaded refl)
rebuild-Reload before files json raw o loaded (inr (e, h)) =
    rw e (failed type_error refl h (inr (refl, loaded, refl)))

unloaded :
    (files : List (Text × AgentFile)) (e : Error)
    → load_json_agents files ≡ raised e
    → ¬ All Loadable files
unfolding load_json_agents
unloaded files e raises h =
    let (d, loads) = load_from-ok files [] (All-map Loadable Passed Loadable-Passed files h) in
    cc (raises, loads)

after_load-Reload :
    (before : Globals) (files : List (Text × AgentFile)) (o : Result Contexts)
    → load_json_agents files ≡ o
    → Reload before files (after_load before files o)
unfolding after_load after_raw load_json_agents Stopped
after_load-Reload before files (raised e) loaded =
    failed e refl (unloaded files e loaded) (inl refl)
after_load-Reload before files (ok json) loaded =
    let passed = load_from-Passed files [] json loaded in
    rw (read_raw-whole files passed)
      (rebuild-Reload before files json (read_raw files).0 _ loaded (hashed-Hashed files passed))

-- A reload raises nothing exactly if every file that can be opened and is JSON is decodable and an
-- object, with a category that is none or a text, and an agent where it has one. The merged contexts
-- are then those of the files over the built-in ones. Where it raises, nothing has changed; or it is
-- a TypeError, and the registry is the one from before, next to the new agents of the files.
pub reload_agents-Reload :
    (before : Globals) (files : List (Text × AgentFile))
    → Reload before files (reload_agents before files)
unfolding reload_agents
reload_agents-Reload before files = after_load-Reload before files (load_json_agents files) refl
