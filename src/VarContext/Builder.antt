-- ===== src/VarContext/Builder.antt =====
-- pkg/varcontext/builder.go
use cloud_service_broker.Prelude.{
  String, Bool, not, ◌&&◌, Option, none, some, List, [], ◌∷◌, ◌++◌, ◌==◌, is_some, if◌then◌else◌,
}
use cloud_service_broker.Prelude.StringMap.{lookup, insert, merge}
use cloud_service_broker.Outcome.{Error, Result, ok, err, plain, wrapped, multierror}
use cloud_service_broker.Json.{Value, null, text, Object}
use cloud_service_broker.Externals.{Externals}
use cloud_service_broker.VarContext.{VarContext, to_map}

pub record ContextBuilder : Type 0 where
  -- `*multierror.Error`: its errors, and none for nil
  pub errors : List Error
  pub context : Object
  pub constants : Object

abbrev pub builder : ContextBuilder
builder = record { errors = []; context = []; constants = [] }

unfoldable pub set_eval_constants : Object → ContextBuilder → ContextBuilder
set_eval_constants constants b = record b { constants = constants }

pub record DefaultVariable : Type 0 where
  pub name : String
  pub default_value : Value
  pub overwrite : Bool
  pub type_name : String

unfoldable pub merge_map : Object → ContextBuilder → ContextBuilder
merge_map d b = record b { context = merge b.context d }

module _ (x : Externals) where
  -- `toSliceE`
  unfoldable pub to_slice_e : Value → Result Value
  to_slice_e (text s) = x.unmarshal_slice s
  to_slice_e v = x.to_slice v

  as_text : Result String → Result Value
  as_text (ok s) = ok (text s)
  as_text (err e) = err e

  unfoldable pub cast_to : Value → String → Result Value
  unfolding to_slice_e as_text
  cast_to value json_type =
      if json_type == "object"
      then x.to_string_map value
      else if json_type == "boolean"
      then x.to_bool value
      else if json_type == "array"
      then to_slice_e value
      else if json_type == "number"
      then x.to_float64 value
      else if json_type == "string"
      then as_text (x.to_string value)
      else if json_type == "integer"
      then x.to_int value
      else if json_type == ""
      then ok value
      else err (wrapped "couldn't cast to " (plain json_type) ", unknown type")

  -- The evaluation of a template, and the conversion of its result.
  unfoldable pub eval_and_cast : String → String → String → ContextBuilder → Result Value
  eval_and_cast key template result_type b = elim (x.eval template (merge b.context b.constants)) [
    | err e ↦ err (wrapped "couldn't compute the value for " e template)
    | ok result ↦ cast_to result result_type
  ]

  -- `multierror.Append(err)` makes a new list that holds `err` alone.
  unfoldable pub merge_eval_result : String → String → String → ContextBuilder → ContextBuilder
  unfolding eval_and_cast
  merge_eval_result key template result_type b = elim (eval_and_cast key template result_type b) [
    | err e ↦ record b { errors = e ∷ [] }
    | ok converted ↦ record b { context = insert key converted b.context }
  ]

  unfoldable pub merge_value : Value → DefaultVariable → ContextBuilder → ContextBuilder
  merge_value null v b = b
  merge_value (text template) v b =
      if is_some (lookup v.name b.context) && not v.overwrite
      then b
      else merge_eval_result v.name template v.type_name b
  merge_value value v b =
      if is_some (lookup v.name b.context) && not v.overwrite
      then b
      else record b { context = insert v.name value b.context }

  -- One round of the loop of `MergeDefaults`; the test at its end changes nothing.
  unfoldable pub merge_default : DefaultVariable → ContextBuilder → ContextBuilder
  unfolding merge_value
  merge_default v b = merge_value v.default_value v b

  unfoldable pub merge_defaults : List DefaultVariable → ContextBuilder → ContextBuilder
  merge_defaults [] b = b
  merge_defaults (v ∷ vs) b = merge_defaults vs (merge_default v b)

  unfoldable pub append_error : Option Error → ContextBuilder → ContextBuilder
  append_error none b = b
  append_error (some e) b = record b { errors = b.errors ++ (e ∷ []) }

  -- A blank message is an empty object. What was decoded before an error is merged too.
  unfoldable pub merge_json_object : String → ContextBuilder → ContextBuilder
  unfolding append_error merge_map
  merge_json_object raw b =
      if raw == ""
      then b
      else (let (out, failure) = x.unmarshal_object raw in merge_map out (append_error failure b))

  -- The first argument is what `json.Marshal` makes of the struct.
  unfoldable pub merge_struct : Result String → ContextBuilder → ContextBuilder
  unfolding append_error merge_json_object
  merge_struct (err e) b = append_error (some e) b
  merge_struct (ok raw) b = merge_json_object raw b

unfoldable pub build : ContextBuilder → Result VarContext
build b = elim b.errors [
  | [] ↦ ok (record { errors = []; context = b.context })
  | e ∷ es ↦ err (multierror e es)
]

unfoldable pub build_map : ContextBuilder → Result Object
build_map b = elim (build b) [ err e ↦ err e | ok vc ↦ ok (to_map vc) ]
