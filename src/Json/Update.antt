-- ===== src/Json/Update.antt =====
-- What a document holds behind `d.update(e)`.
use omnicursor.Prelude.{
  ◌≡◌, refl, subst, true, false, Option, none, some, if◌then◌else◌, arith, Bool-cases, inl, inr,
}
use omnicursor.Text.{Text, same, same_iff, same_comm}
use omnicursor.Json.{Json, Fields, end, field, get, set_key, update, has_key}

-- no key stands twice, as in every `dict`
abbrev pub Unique : Fields → Type 0
Unique end = Unit
Unique (field k v fs) = (has_key k fs ≡ false) × Unique fs

-- the first value, else the second
abbrev pub or_get : Option Json → Option Json → Option Json
or_get (some v) o = some v
or_get none o = o

-- a text that is another than `key` is not found where `key` is
other_key : (j key k : Text) → same j key ≡ false → same key k ≡ true → same j k ≡ false
other_key j key k e f = subst (λ t. same j t ≡ false) ((same_iff key k).0 f) e

get-set_key :
    (k key : Text) (v : Json) (d : Fields)
    → get k (set_key key v d) ≡ (if same key k then some v else get k d)
unfolding get set_key
get-set_key k key v end = refl
get-set_key k key v (field j w d) = elim (Bool-cases (same j key)) [
  | inl e ↦ rw (e, (same_iff j key).0 e) (ground arith)
  | inr e ↦ rw e (
      rw (get-set_key k key v d) (elim (Bool-cases (same key k)) [
        | inl f ↦ rw (f, other_key j key k e f) refl
        | inr f ↦ rw f refl
      ]))
]

get-absent : (k : Text) (d : Fields) → has_key k d ≡ false → get k d ≡ none
unfolding get
get-absent k end h = refl
get-absent k (field j v d) h = ground (arith, h, same_comm j k, get-absent k d)

-- Behind an update a key has its new value, or where it has none, its old one.
pub get-update :
    (k : Text) (d e : Fields) → Unique e → get k (update d e) ≡ or_get (get k e) (get k d)
unfolding update get
get-update k d end h = refl
get-update k d (field j v e) (fresh, h) = elim (Bool-cases (same j k)) [
  | inl f ↦
      let k_fresh = subst (λ t. has_key t e ≡ false) ((same_iff j k).0 f) fresh in
      rw (f, get-update k (set_key j v d) e h, get-absent k e k_fresh, get-set_key k j v d, f) refl
  | inr f ↦ rw (f, get-update k (set_key j v d) e h, get-set_key k j v d, f) refl
]
