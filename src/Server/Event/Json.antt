-- ===== src/Server/Event/Json.antt =====
-- crates/jet-server/src/webhook/mod.rs: the fields that it reads from a JSON document. The documents
-- are those of serde_json; a number is known by what `as_u64` says of it.
use jetrun.Prelude.{ℕ, Bool, Option, none, some, List, [], ◌∷◌, if◌then◌else◌, Bytes, bytes_eq}

mutual
  pub data Value : Type 0 where
    null : Value
    bool : Bool → Value
    number : Option ℕ → Value
    string : Bytes → Value
    array : Values → Value
    object : Members → Value

  pub data Values : Type 0 where
    nil : Values
    cons : Value → Values → Values

  pub data Members : Type 0 where
    end : Members
    member : Bytes → Value → Members → Members

unfoldable pub find : Bytes → Members → Option Value
find key end = none
find key (member k v members) = if bytes_eq k key then some v else find key members

-- `Value::get`, at a key
unfoldable pub get : Bytes → Value → Option Value
get key (object members) = find key members
get key null = none
get key (bool b) = none
get key (number n) = none
get key (string text) = none
get key (array values) = none

-- The walk down a path that `s` and `u` share.
unfoldable pub walk : List Bytes → Value → Option Value
walk [] v = some v
walk (p ∷ path) v = elim (get p v) [ none ↦ none | some next ↦ walk path next ]

-- `as_str`, `as_u64` and `as_array().first()`
abbrev pub as_str : Option Value → Option Bytes
as_str (some (string text)) = some text
as_str _ = none

abbrev pub as_u64 : Option Value → Option ℕ
as_u64 (some (number n)) = n
as_u64 _ = none

abbrev pub first : Option Value → Option Value
first (some (array (cons v values))) = some v
first _ = none

unfoldable pub s : Value → List Bytes → Option Bytes
s v path = as_str (walk path v)

unfoldable pub u : Value → List Bytes → Option ℕ
u v path = as_u64 (walk path v)
