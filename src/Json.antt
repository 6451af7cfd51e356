-- ===== src/Json.antt =====
-- Go's `interface{}` values as `encoding/json` makes them.
use cloud_service_broker.Prelude.{String, Bool, [], ◌∷◌}
use cloud_service_broker.Prelude.StringMap.{StringMap}

mutual
  -- The code does no arithmetic on numbers, so a number is its decimal literal.
  pub data Value : Type 0 where
    null : Value
    boolean : Bool → Value
    number : String → Value
    text : String → Value
    array : Items → Value
    object : Fields → Value

  pub data Items : Type 0 where
    nil : Items
    cons : Value → Items → Items

  pub data Fields : Type 0 where
    end : Fields
    field : String → Value → Fields → Fields

-- `map[string]interface{}`
abbrev pub Object : Type 0
Object = StringMap Value

-- A map stored in an `interface{}`.
pub to_fields : Object → Fields
to_fields [] = end
to_fields ((k, v) ∷ m) = field k v (to_fields m)
