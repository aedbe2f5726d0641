-- ===== src/Json.antt =====
-- The Python values that the program stores in JSON columns and hands to `json.dumps`.
use real_voice_agent_free.Prelude.{
  ℕ, String, Bool, true, false, ◌&&◌, Stamp, List, [], ◌∷◌, Option, none, some, ◌==◌, if◌then◌else◌,
}

mutual
  pub data Json : Type 0 where
    null : Json
    bool : Bool → Json
    num : ℕ → Json
    -- a float, by its text
    float : String → Json
    str : String → Json
    -- a `datetime` object, which is no JSON value
    datetime : Stamp → Json
    arr : Items → Json
    obj : Fields → Json

  pub data Items : Type 0 where
    nil : Items
    cons : Json → Items → Items

  pub data Fields : Type 0 where
    end : Fields
    field : String → Json → Fields → Fields

-- `json.dumps(value)` with no `default` raises TypeError at a `datetime`.
unfoldable mutual
  pub serializable : Json → Bool
  serializable null = true
  serializable (bool b) = true
  serializable (num n) = true
  serializable (float t) = true
  serializable (str s) = true
  serializable (datetime t) = false
  serializable (arr xs) = serializable_items xs
  serializable (obj fs) = serializable_fields fs

  pub serializable_items : Items → Bool
  serializable_items nil = true
  serializable_items (cons x xs) = serializable x && serializable_items xs

  pub serializable_fields : Fields → Bool
  serializable_fields end = true
  serializable_fields (field k v fs) = serializable v && serializable_fields fs

abbrev pub items : List Json → Items
items [] = nil
items (x ∷ xs) = cons x (items xs)

abbrev fields : List (String × Json) → Fields
fields [] = end
fields ((k, v) ∷ rest) = field k v (fields rest)

-- A dictionary literal.
abbrev pub dict : List (String × Json) → Json
dict entries = obj (fields entries)

abbrev field_at : String → Fields → Option Json
field_at key end = none
field_at key (field k v fs) = if k == key then some v else field_at key fs

-- `(value or {}).get(key)`, of a dictionary or of None
abbrev pub entry : String → Json → Option Json
entry key (obj fs) = field_at key fs
entry key _ = none

abbrev put_field : String → Json → Fields → Fields
put_field key value end = field key value end
put_field key value (field k v fs) =
    if k == key then field k value fs else field k v (put_field key value fs)

-- `{**d, key: value}`
abbrev pub put : String → Json → Json → Json
put key value (obj fs) = obj (put_field key value fs)
put key value j = j
