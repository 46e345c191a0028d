-- ===== src/Json.antt =====
-- Values of the database's jsonb columns and of audit states.
use ptv_mcp.Base.{ℕ, Bool, List, [], ◌∷◌, Option, none, some, Text, text_eq, if◌then◌else◌}

mutual
  pub data Json : Type 0 where
    null : Json
    bool : Bool → Json
    number : ℕ → Json
    str : Text → Json
    arr : Items → Json
    obj : Fields → Json

  pub data Items : Type 0 where
    nil : Items
    cons : Json → Items → Items

  pub data Fields : Type 0 where
    end : Fields
    field : Text → Json → Fields → Fields

-- `value[key]`, `none` for `undefined`.
unfoldable pub get_field : Text → Fields → Option Json
get_field key end = none
get_field key (field k v fs) = let rest = get_field key fs in if text_eq k key then some v else rest

-- An object literal, and an array of texts.
abbrev pub fields : List (Text × Json) → Fields
fields [] = end
fields ((k, v) ∷ fs) = field k v (fields fs)

abbrev pub texts : List Text → Items
texts [] = nil
texts (t ∷ ts) = cons (str t) (texts ts)
