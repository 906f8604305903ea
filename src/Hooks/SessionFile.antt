-- ===== src/Hooks/SessionFile.antt =====
-- The session files: what is read back behind a merge.
use omnicursor.Prelude.{◌≡◌, refl, sym, ◌≢◌, true, false, Bool-cases, inl, inr}
use omnicursor.Text.{Text, same, same_iff, same_refl, is_empty}
use omnicursor.Json.{
  Fields, end, FileJson, holds, unreadable, malformed, undecodable, ok, get, update,
}
use omnicursor.Json.Update.{Unique, or_get, get-update}
use omnicursor.Hooks.{Store, session_of, read_session_json, write_file, merge_session_json}

-- `after` is `before` with the updates in the file of one conversation.
pub record Merged (before after : Store) (conversation_id : Text) (updates : Fields) : Type 0 where
  pub old : Fields
  pub was : read_session_json before conversation_id ≡ ok old
  pub new : Fields
  pub now : read_session_json after conversation_id ≡ ok new
  pub value : (key : Text) → get key new ≡ or_get (get key updates) (get key old)
  pub others : (other : Text) → other ≢ conversation_id → after other ≡ before other

read-write :
    (store : Store) (id : Text) (fields : Fields)
    → is_empty id ≡ false
    → read_session_json (write_file store true id fields) id ≡ ok fields
unfolding read_session_json write_file session_of
read-write store id fields h = rw (h, same_refl id) refl

write-others :
    (store : Store) (id other : Text) (fields : Fields)
    → other ≢ id
    → write_file store true id fields other ≡ store other
unfolding write_file
write-others store id other fields h = elim (Bool-cases (same id other)) [
  | inl e ↦ absurd (h (sym ((same_iff id other).0 e)))
  | inr e ↦ rw e refl
]

session_of-ok : (f : FileJson) → f ≢ undecodable → (d : Fields) × (session_of f ≡ ok d)
unfolding session_of
session_of-ok unreadable h = (end, refl)
session_of-ok malformed h = (end, refl)
session_of-ok undecodable h = absurd (h refl)
session_of-ok (holds v) h = (_, refl)

read-ok :
    (store : Store) (id : Text)
    → store id ≢ undecodable
    → (d : Fields) × (read_session_json store id ≡ ok d)
unfolding read_session_json
read-ok store id h = elim (Bool-cases (is_empty id)) [
  | inl e ↦ rw e (end, refl)
  | inr e ↦ rw e (session_of-ok (store id) h)
]

-- A merge that can write, of a session that can be decoded: read back, each key of the updates has
-- its new value and each other key its old one, and no other conversation's file is touched.
pub merge_session_json-Merged :
    (store : Store) (conversation_id : Text) (updates : Fields)
    → is_empty conversation_id ≡ false
    → store conversation_id ≢ undecodable
    → Unique updates
    → (after : Store) × (merge_session_json store true conversation_id updates ≡ ok after)
      × Merged store after conversation_id updates
unfolding merge_session_json
merge_session_json-Merged store id updates filled decodes unique =
    let (old, was) = read-ok store id decodes in
    rw (filled, was)
      (
        write_file store true id (update old updates),
        refl,
        record {
          old = old;
          was = was;
          new = update old updates;
          now = read-write store id _ filled;
          value = λ key. get-update key old updates unique;
          others = λ other h. write-others store id other _ h;
        },
      )

-- A merge that cannot write, of a session that can be decoded, leaves every file as it is.
pub merge_session_json-kept :
    (store : Store) (conversation_id : Text) (updates : Fields)
    → store conversation_id ≢ undecodable
    → (after : Store) × (merge_session_json store false conversation_id updates ≡ ok after)
      × ((other : Text) → after other ≡ store other)
unfolding merge_session_json write_file
merge_session_json-kept store id updates decodes = elim (Bool-cases (is_empty id)) [
  | inl e ↦ rw e (store, refl, λ other. refl)
  | inr e ↦
      let (old, was) = read-ok store id decodes in
      rw (e, was) (write_file store false id (update old updates), refl, λ other. refl)
]
