-- ===== src/Json.antt =====
-- Parsed JSON documents, and what reading a file of them may give. The texts that `json` reads and
-- prints are not modelled: a file holds a document or it cannot be read as one. The numbers are the
-- integers from 0 on.
pub mod Update
use omnicursor.Prelude.{
  ℕ, Bool, true, false, not, ◌||◌, Option, none, some, List, [], ◌∷◌, ◌==◌, if◌then◌else◌,
}
use omnicursor.Text.{Text, same, is_empty}

-- What Python raises where the program does not catch it.
pub data Error : Type 0 where
  key_error attribute_error unicode_error type_error value_error : Error

pub data Result {ℓ} (A : Type ℓ) : Type ℓ where
  ok : A → Result A
  raised : Error → Result A

infixl 5 ◌>>=◌
abbrev pub ◌>>=◌ {ℓ κ} : {A : Type ℓ} {B : Type κ} → Result A → (A → Result B) → Result B
ok a >>= f = f a
raised e >>= f = raised e

mutual
  pub data Json : Type 0 where
    null : Json
    bool : Bool → Json
    num : ℕ → Json
    str : Text → Json
    arr : Items → Json
    obj : Fields → Json

  pub data Items : Type 0 where
    nil : Items
    cons : Json → Items → Items

  pub data Fields : Type 0 where
    end : Fields
    field : Text → Json → Fields → Fields

abbrev pub elems : Items → List Json
elems nil = []
elems (cons v vs) = v ∷ elems vs

-- `d.get(key)`
unfoldable pub get : Text → Fields → Option Json
unfolding same
get key end = none
get key (field k v fs) = if same k key then some v else get key fs

-- the truth value of a document
unfoldable pub truthy : Json → Bool
unfolding is_empty
truthy null = false
truthy (bool b) = b
truthy (num n) = not (n == 0)
truthy (str s) = not (is_empty s)
truthy (arr nil) = false
truthy (arr (cons v vs)) = true
truthy (obj end) = false
truthy (obj (field k v fs)) = true

abbrev pub truthy_option : Option Json → Bool
truthy_option none = false
truthy_option (some v) = truthy v

-- `json.loads(path.read_text(encoding="utf-8"))`: the file cannot be opened (OSError), it is no
-- JSON (JSONDecodeError), it is no UTF-8 (UnicodeDecodeError), or it holds a document.
pub data FileJson : Type 0 where
  unreadable malformed undecodable : FileJson
  holds : Json → FileJson

-- `d[key] = value`: in place where the key is there, else at the end.
unfoldable pub set_key : Text → Json → Fields → Fields
unfolding same
set_key key v end = field key v end
set_key key v (field k w fs) = if same k key then field k v fs else field k w (set_key key v fs)

-- `d.update(e)`, and `{**d, **e}`
unfoldable pub update : Fields → Fields → Fields
unfolding set_key
update d end = d
update d (field k v e) = update (set_key k v d) e

abbrev pub has_key : Text → Fields → Bool
has_key key end = false
has_key key (field k v fs) = same k key || has_key key fs
