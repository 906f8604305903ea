-- ===== src/Context/Cache.antt =====
-- src/omnicursor/pattern_cache.py: the patterns in memory, by their domain, with the time of the last
-- change in seconds of the monotonic clock. The lock is held for each operation as a whole.
use omnicursor.Prelude.{
  ℕ, ◌-◌, Bool, true, false, Option, none, some, List, [], ◌∷◌, ◌++◌, if◌then◌else◌, get_or, ltb,
  length,
}
use omnicursor.Text.{Text, codes, same, is_empty}
use omnicursor.Json.{Result, ok, raised, attribute_error, unicode_error}
use omnicursor.Learned.Session.{
  RawPattern, PatternsFile, absent, unparsed, undecodable, no_object, holds,
}

abbrev pub Groups : Type 0
Groups = List (Text × List RawPattern)

pub record PatternCache : Type 0 where
  pub groups : Groups
  pub last_updated_at : Option ℕ
  pub stale_seconds : ℕ

-- `PatternCache()`
abbrev pub new_cache : PatternCache
new_cache = record { groups = []; last_updated_at = none; stale_seconds = 600 }

-- `self._data.get(key, [])`
unfoldable pub group_of : Text → Groups → List RawPattern
group_of key [] = []
group_of key ((k, ps) ∷ groups) = if same k key then ps else group_of key groups

-- `get`
unfoldable pub cache_get : Text → PatternCache → List RawPattern
cache_get domain cache = group_of (if is_empty domain then codes "general" else domain) cache.groups

-- `self._data[domain] = patterns`
unfoldable pub set_group : Text → List RawPattern → Groups → Groups
set_group domain ps [] = (domain, ps) ∷ []
set_group domain ps ((k, qs) ∷ groups) =
    let rest = set_group domain ps groups in
    if same k domain then (k, ps) ∷ groups else (k, qs) ∷ rest

-- `update`
unfoldable pub cache_update : ℕ → Text → List RawPattern → PatternCache → PatternCache
cache_update now domain patterns cache = record {
  groups = set_group domain patterns cache.groups;
  last_updated_at = some now;
  stale_seconds = cache.stale_seconds;
}

-- `is_warm`
unfoldable pub is_warm : PatternCache → Bool
is_warm cache = elim cache.last_updated_at [ some t ↦ true | none ↦ false ]

-- `is_stale`
unfoldable pub is_stale : ℕ → PatternCache → Bool
is_stale now cache = elim cache.last_updated_at [
  | some t ↦ ltb cache.stale_seconds (now - t)
  | none ↦ true
]

-- `by_domain.setdefault(domain, []).append(p)`
unfoldable pub add_to_group : Text → RawPattern → Groups → Groups
add_to_group domain p [] = (domain, p ∷ []) ∷ []
add_to_group domain p ((k, qs) ∷ groups) =
    let rest = add_to_group domain p groups in
    if same k domain then (k, qs ++ (p ∷ [])) ∷ groups else (k, qs) ∷ rest

abbrev pub domain_key : RawPattern → Text
domain_key p = get_or p.domain (codes "general")

-- the loop of `warm_from_json`
unfoldable pub group_all : Groups → List (Option RawPattern) → Groups
group_all by_domain [] = by_domain
group_all by_domain (none ∷ raw) = group_all by_domain raw
group_all by_domain (some p ∷ raw) = group_all (add_to_group (domain_key p) p by_domain) raw

-- `warm_from_json`: the number it returns, and the cache behind it
unfoldable pub warm_from_json : ℕ → PatternsFile → PatternCache → Result (ℕ × PatternCache)
warm_from_json now absent cache = ok (0, cache)
warm_from_json now unparsed cache = ok (0, cache)
warm_from_json now undecodable cache = raised unicode_error
warm_from_json now no_object cache = raised attribute_error
warm_from_json now (holds raw) cache = ok (
  length raw,
  record {
    groups = group_all [] raw;
    last_updated_at = some now;
    stale_seconds = cache.stale_seconds;
  },
)

-- `clear`
unfoldable pub cache_clear : PatternCache → PatternCache
cache_clear cache = record {
  groups = [];
  last_updated_at = none;
  stale_seconds = cache.stale_seconds;
}
