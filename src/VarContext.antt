-- ===== src/VarContext.antt =====
-- pkg/varcontext/varcontext.go: the resolved variables of one request.
pub mod Builder
pub mod Merging
pub mod Errors
use cloud_service_broker.Prelude.{
  String, Bool, false, Option, none, some, List, [], ◌∷◌, ◌++◌, is_some,
}
use cloud_service_broker.Prelude.StringMap.{StringMap, lookup}
use cloud_service_broker.Outcome.{Error, Result, ok, err, plain, wrapped}
use cloud_service_broker.Json.{Value, boolean, number, Object}
use cloud_service_broker.Externals.{Externals}

pub record VarContext : Type 0 where
  pub errors : List Error
  pub context : Object

-- `validate` with the getter's cast: the value, or its type's zero value and one more error.
unfoldable pub validate :
    {A : Type 0} → (Value → Result A) → String → String → A → VarContext → A × VarContext
validate cast key type_name zero_value vc = elim (lookup key vc.context) [
  | none ↦ (
    zero_value,
    record vc { errors = vc.errors ++ (wrapped "missing value for key " (plain key) "" ∷ []) },
  )
  | some value ↦ elim (cast value) [
    | ok a ↦ (a, vc)
    | err _ ↦ (
      zero_value,
      record vc { errors = vc.errors ++ (wrapped "value for " (plain key) type_name ∷ []) },
    )
  ]
]

module _ (x : Externals) where
  unfoldable pub get_string : String → VarContext → String × VarContext
  unfolding validate
  get_string key vc = validate x.to_string key " must be a string" "" vc

  -- `cast.ToBoolE` and `cast.ToIntE` return a boolean and a number, or an error.
  bool_of : Value → Result Bool
  bool_of v = elim (x.to_bool v) [ err e ↦ err e | ok (boolean b) ↦ ok b | ok _ ↦ err (plain "") ]

  int_of : Value → Result String
  int_of v = elim (x.to_int v) [ err e ↦ err e | ok (number n) ↦ ok n | ok _ ↦ err (plain "") ]

  unfoldable pub get_bool : String → VarContext → Bool × VarContext
  unfolding validate bool_of
  get_bool key vc = validate bool_of key " must be a boolean" false vc

  -- A number is its decimal literal.
  unfoldable pub get_int : String → VarContext → String × VarContext
  unfolding validate int_of
  get_int key vc = validate int_of key " must be a integer" "0" vc

-- The cast is `cast.ToStringMapStringE`.
unfoldable pub get_string_map_string :
    (Value → Result (StringMap String)) → String → VarContext → StringMap String × VarContext
unfolding validate
get_string_map_string cast key vc = validate cast key " must be a map[string]string" [] vc

-- `ToMap` copies the context.
unfoldable pub to_map : VarContext → Object
to_map vc = vc.context

unfoldable pub to_json : Externals → VarContext → Result String
to_json x vc = x.marshal_object (to_map vc)

-- `Error`
unfoldable pub error : VarContext → List Error
error vc = vc.errors

unfoldable pub has_key : String → VarContext → Bool
has_key key vc = is_some (lookup key vc.context)
