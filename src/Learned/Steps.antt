-- ===== src/Learned/Steps.antt =====
-- pattern_writer.py: decay, upsert, the two evictions and the metric of one injection.
use omnicursor.Prelude.{
  ℕ, ◌+◌, ◌-◌, ◌*◌, ◌/◌, ◌%◌, Bool, true, false, not, ◌&&◌, Option, none, some, List, [], ◌∷◌, ◌++◌,
  leb, ltb, ◌==◌, if◌then◌else◌, get_or, min, max, take, keep,
}
use omnicursor.Text.{Text, codes, same, join}
use omnicursor.Text.Order.{sorted}
use omnicursor.Json.{Result, ok, raised, key_error, ◌>>=◌}
use omnicursor.Event.{is_text}
use omnicursor.Learned.{
  Pattern, initial_weight, weight_increment, boosted_increment, weight_cap, weight_floor,
  decay_period, decay_amount, max_patterns_per_domain, evict_min_injections, domain_of, weight_of,
}

-- `round(n / d)`: to the nearest, and to the even one of two that are as near.
unfoldable pub round_div : ℕ → ℕ → ℕ
round_div n d =
    let q = n / d in
    let r = n % d in
    if ltb (2 * r) d then q else if ltb d (2 * r) then q + 1 else if q % 2 == 0 then q else q + 1

-- The weight of a pattern that was last seen `age` ago, `age` past the period. A weight that would
-- fall below zero is below the floor in any case.
unfoldable pub decayed_weight : ℕ → ℕ → ℕ
unfolding round_div
decayed_weight weight age =
    max weight_floor
      (round_div (weight * decay_period - decay_amount * (age - decay_period)) decay_period)

-- One round of `_decay_patterns`. `p["weight"]` raises where there is none.
unfoldable pub decay_pattern : ℕ → Pattern → Result Pattern
decay_pattern now p =
    let age = now - get_or p.last_seen now in
    if ltb decay_period age
    then elim p.weight [
      | none ↦ raised key_error
      | some weight ↦ ok (record p { weight = some (decayed_weight weight age) })
    ]
    else ok p

unfoldable pub decay_patterns : ℕ → List Pattern → Result (List Pattern)
decay_patterns now [] = ok []
decay_patterns now (p ∷ ps) =
    decay_pattern now p >>= λ q. (decay_patterns now ps >>= λ qs. ok (q ∷ qs))

-- `_make_pattern_id`, with `digest` for the first twelve hexadecimal digits of the SHA-1
unfoldable pub make_pattern_id : (Text → Text) → Text → Text → Text
make_pattern_id digest domain key = codes "auto-" ++ digest (domain ++ (codes ":" ++ key))

-- `min(WEIGHT_CAP, round(p.get("weight", INITIAL_WEIGHT) + increment, 3))`
unfoldable pub raise_weight : Option ℕ → ℕ → ℕ
raise_weight weight increment = min weight_cap (get_or weight initial_weight + increment)

abbrev pub count_of : Bool → ℕ
count_of true = 1
count_of false = 0

-- the key under which keywords are stored
unfoldable pub pattern_key : List Text → Text
pattern_key keywords = join (codes " ") (sorted (take 5 keywords))

unfoldable pub is_at : Text → Text → Pattern → Bool
unfolding is_text
is_at domain key p = is_text p.domain domain && is_text p.pattern key

-- the entry that a repeated success leaves
unfoldable pub reinforce : Text → ℕ → Bool → Pattern → Pattern
unfolding raise_weight
reinforce description now injected p = record p {
  weight = some (raise_weight p.weight (if injected then boosted_increment else weight_increment));
  success_count = some (get_or p.success_count 1 + 1);
  injection_count = p.injection_count + count_of injected;
  utilization_successes = p.utilization_successes + count_of injected;
  last_seen = some now;
  description = some description;
}

module _ (digest : Text → Text) (domain : Text) (key description : Text) (now : ℕ)
    (injected : Bool) where
  unfoldable pub new_pattern : Pattern
  unfolding make_pattern_id
  new_pattern = record {
    pattern_id = make_pattern_id digest domain key;
    pattern = some key;
    domain = some domain;
    weight = some initial_weight;
    success_count = some 1;
    injection_count = count_of injected;
    utilization_successes = count_of injected;
    last_seen = some now;
    description = some description;
  }

  -- The first entry at the place is replaced; without one the new entry goes to the end.
  unfoldable pub upsert_at : List Pattern → List Pattern
  upsert_at [] = new_pattern ∷ []
  upsert_at (p ∷ ps) =
      if is_at domain key p then reinforce description now injected p ∷ ps else p ∷ upsert_at ps

-- `_upsert_pattern`
unfoldable pub upsert_pattern :
    (Text → Text) → List Pattern → Text → List Text → Text → ℕ → Bool → List Pattern
upsert_pattern digest patterns domain keywords description now injected =
    upsert_at digest domain (pattern_key keywords) description now injected patterns

-- A pattern that is injected often and seldom leads to success: `rate < 0.2`, multiplied out.
unfoldable pub is_underused : Pattern → Bool
is_underused p =
    ltb evict_min_injections p.injection_count
    && ltb (5 * p.utilization_successes) p.injection_count

-- `_evict_low_utilization`
unfoldable pub evict_low_utilization : List Pattern → List Pattern
evict_low_utilization patterns = keep (λ p. not (is_underused p)) patterns

-- `by_domain.setdefault(d, []).append(p)`, the dictionary as a list in insertion order
unfoldable pub append_to : Text → Pattern → List (Text × List Pattern) → List (Text × List Pattern)
append_to d p [] = (d, p ∷ []) ∷ []
append_to d p ((e, l) ∷ gs) = if same e d then (e, l ++ p ∷ []) ∷ gs else (e, l) ∷ append_to d p gs

unfoldable pub group_by_domain :
    List (Text × List Pattern) → List Pattern → List (Text × List Pattern)
group_by_domain gs [] = gs
group_by_domain gs (p ∷ ps) = group_by_domain (append_to (domain_of p) p gs) ps

-- `sort(key=weight, reverse=True)`, stable: what is as heavy stays in front
unfoldable pub insert_heavy : Pattern → List Pattern → List Pattern
insert_heavy p [] = p ∷ []
insert_heavy p (q ∷ qs) =
    if leb (weight_of q) (weight_of p) then p ∷ q ∷ qs else q ∷ insert_heavy p qs

unfoldable pub sort_heavy : List Pattern → List Pattern
sort_heavy [] = []
sort_heavy (p ∷ ps) = insert_heavy p (sort_heavy ps)

unfoldable pub best_of_each : List (Text × List Pattern) → List Pattern
best_of_each [] = []
best_of_each ((d, l) ∷ gs) = take max_patterns_per_domain (sort_heavy l) ++ best_of_each gs

-- `_evict_overflow`
unfoldable pub evict_overflow : List Pattern → List Pattern
evict_overflow patterns = best_of_each (group_by_domain [] patterns)
