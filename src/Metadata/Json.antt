-- ===== src/Metadata/Json.antt =====
-- What `json.Unmarshal` makes of a document in an `interface{}`, and Go's type assertions on it.
use nectar.Prelude.{Bool, false, Option, none, some, [], if◌then◌else◌, Text, text_eq}

mutual
  pub data Json : Type 0 where
    null : Json
    boolean : Bool → Json
    -- the literal of a number
    number : Text → Json
    str : Text → Json
    array : Items → Json
    object : Fields → Json

  pub data Items : Type 0 where
    nil : Items
    cons : Json → Items → Items

  pub data Fields : Type 0 where
    end : Fields
    entry : Text → Json → Fields → Fields

-- `m[key]`
unfoldable pub field : Text → Fields → Option Json
field key end = none
field key (entry k j rest) = let found = field key rest in if text_eq k key then some j else found

abbrev pub as_string : Option Json → Option Text
as_string (some (str s)) = some s
as_string _ = none

abbrev pub as_bool : Option Json → Bool
as_bool (some (boolean b)) = b
as_bool _ = false

abbrev pub as_array : Option Json → Option Items
as_array (some (array xs)) = some xs
as_array _ = none

abbrev pub as_object : Option Json → Option Fields
as_object (some (object m)) = some m
as_object _ = none

-- `s, _ := m[key].(string)`
abbrev pub string_field : Text → Fields → Text
unfolding field
string_field key m = elim (as_string (field key m)) [ none ↦ [] | some s ↦ s ]
