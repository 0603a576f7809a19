-- ===== src/Json.antt =====
-- The values that `JSON.parse` returns, which the code reads from its state files and from the
-- arguments of its callers. A number is a natural number. An object is its entries, each key once.
use agent_comm_hub.Prelude.{
  ℕ, String, str_eq, if◌then◌else◌, Bool, true, false, Option, none, some, List, [], ◌∷◌,
}

mutual
  pub data Json : Type 0 where
    null : Json
    bool : Bool → Json
    num : ℕ → Json
    str : String → Json
    arr : Items → Json
    obj : Fields → Json

  pub data Items : Type 0 where
    nil : Items
    cons : Json → Items → Items

  pub data Fields : Type 0 where
    end : Fields
    entry : String → Json → Fields → Fields

abbrev pub items : Items → List Json
items nil = []
items (cons j is) = j ∷ items is

abbrev pub to_items : List Json → Items
to_items [] = nil
to_items (j ∷ js) = cons j (to_items js)

abbrev find_field : String → Fields → Option Json
find_field k end = none
find_field k (entry n j fs) = if str_eq n k then some j else find_field k fs

-- `value.k`, with `none` for `undefined`. Only an object has entries of its own.
abbrev pub field : String → Json → Option Json
field k (obj fs) = find_field k fs
field k _ = none

-- `typeof value === 'object' && value !== null`
abbrev pub is_object : Json → Bool
is_object (arr _) = true
is_object (obj _) = true
is_object _ = false

-- `Array.isArray(value)`
abbrev pub as_array : Option Json → Option (List Json)
as_array (some (arr is)) = some (items is)
as_array _ = none

-- `typeof value === 'string'`
abbrev pub as_string : Option Json → Option String
as_string (some (str s)) = some s
as_string _ = none

-- `typeof value === 'number'`
abbrev pub as_number : Option Json → Option ℕ
as_number (some (num n)) = some n
as_number _ = none
