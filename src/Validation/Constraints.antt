-- ===== src/Validation/Constraints.antt =====
-- pkg/validation/constraint_builder.go: constraints of a JSON schema, by the calls that add them.
use cloud_service_broker.Prelude.{
  ◌≡◌, refl, String, ◌==◌, Option, none, some, List, [], ◌∷◌, if◌then◌else◌, arith, or_else,
}
use cloud_service_broker.Prelude.StringMap.{insert, lookup, lookup-insert}
use cloud_service_broker.Json.{
  Value, text, number, array, object, Items, nil, cons, Object, to_fields,
}

-- A call of the builder. An `int` is its decimal literal.
pub data Constraint : Type 0 where
  type' description title pattern : String → Constraint
  const : Value → Constraint
  examples enum : List Value → Constraint
  multiple_of minimum maximum exclusive_minimum exclusive_maximum : String → Constraint
  max_length min_length max_items min_items max_properties min_properties : String → Constraint
  required : List String → Constraint
  property_names : Object → Constraint

unfoldable pub items : List Value → Items
items [] = nil
items (v ∷ vs) = cons v (items vs)

unfoldable pub texts : List String → Items
texts [] = nil
texts (s ∷ ss) = cons (text s) (texts ss)

unfoldable pub key : Constraint → String
key (type' t) = "type"
key (description t) = "description"
key (title t) = "title"
key (pattern t) = "pattern"
key (const v) = "const"
key (examples vs) = "examples"
key (enum vs) = "enum"
key (multiple_of n) = "multipleOf"
key (minimum n) = "minimum"
key (maximum n) = "maximum"
key (exclusive_minimum n) = "exclusiveMinimum"
key (exclusive_maximum n) = "exclusiveMaximum"
key (max_length n) = "maxLength"
key (min_length n) = "minLength"
key (max_items n) = "maxItems"
key (min_items n) = "minItems"
key (max_properties n) = "maxProperties"
key (min_properties n) = "minProperties"
key (required ss) = "required"
key (property_names o) = "propertyNames"

unfoldable pub value : Constraint → Value
unfolding items texts
value (type' t) = text t
value (description t) = text t
value (title t) = text t
value (pattern t) = text t
value (const v) = v
value (examples vs) = array (items vs)
value (enum vs) = array (items vs)
value (multiple_of n) = number n
value (minimum n) = number n
value (maximum n) = number n
value (exclusive_minimum n) = number n
value (exclusive_maximum n) = number n
value (max_length n) = number n
value (min_length n) = number n
value (max_items n) = number n
value (min_items n) = number n
value (max_properties n) = number n
value (min_properties n) = number n
value (required ss) = array (texts ss)
value (property_names o) = object (to_fields o)

-- Each method writes its key of the map and returns the map.
unfoldable pub call : Constraint → Object → Object
unfolding key value
call c cb = insert (key c) (value c) cb

-- A chain of calls, from `NewConstraintBuilder` to `Build`.
unfoldable pub build : List Constraint → Object → Object
unfolding call
build [] cb = cb
build (c ∷ cs) cb = build cs (call c cb)

-- The last call with a key.
unfoldable pub last_value : String → List Constraint → Option Value
unfolding key value
last_value k [] = none
last_value k (c ∷ cs) = or_else (last_value k cs) (if key c == k then some (value c) else none)

-- What is built has, at each key, the value of the last call that writes this key, and the keys that no
-- call writes as they were.
pub lookup-build :
    (k : String) (cs : List Constraint) (cb : Object)
    → lookup k (build cs cb) ≡ or_else (last_value k cs) (lookup k cb)
unfolding build call last_value
lookup-build k [] cb = refl
lookup-build k (c ∷ cs) cb =
    ground (arith, lookup-build k cs (call c cb), lookup-insert k (key c) (value c) cb)
