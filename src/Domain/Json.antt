-- ===== src/Domain/Json.antt =====
-- A JSON document: `Mapping[str, object]` where the source stores a body or a probe verbatim.
use growtrics_challenge.Common.{ℕ, Bool, List, [], ◌∷◌}
use growtrics_challenge.Common.Text.{Str}

-- `negative n` is -(n + 1); a float is kept by its text.
mutual
  pub data Json : Type 0 where
    null : Json
    boolean : Bool → Json
    number : ℕ → Json
    negative : ℕ → Json
    real : Str → Json
    text : Str → Json
    array : Items → Json
    object : Fields → Json

  pub data Items : Type 0 where
    nil : Items
    cons : Json → Items → Items

  pub data Fields : Type 0 where
    end : Fields
    field : Str → Json → Fields → Fields

abbrev pub fields_of : List (Str × Json) → Fields
fields_of [] = Fields.end
fields_of ((key, value) ∷ entries) = Fields.field key value (fields_of entries)

-- `[value, ...]`
abbrev pub items_of : List Json → Items
items_of [] = Items.nil
items_of (value ∷ values) = Items.cons value (items_of values)

-- `{"key": value, ...}`
abbrev pub document : List (Str × Json) → Json
document entries = Json.object (fields_of entries)
