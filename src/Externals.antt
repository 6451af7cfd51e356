-- ===== src/Externals.antt =====
-- The packages that the program calls, as parameters: encoding/json, HIL behind
-- pkg/varcontext/interpolation, spf13/cast, gojsonschema, viper and the process environment.
use Prim.Native.Char.{Char}
use cloud_service_broker.Prelude.{String, Bool, Option, List}
use cloud_service_broker.Prelude.StringMap.{StringMap}
use cloud_service_broker.Outcome.{Error, Result}
use cloud_service_broker.Json.{Value, Object}
use cloud_service_broker.Catalog.{ServicePlan}

pub record Externals : Type 0 where
  -- `json.Valid`
  pub valid_json : String → Bool
  -- `json.Unmarshal` into a map: what it has filled in, and its error
  pub unmarshal_object : String → Object × Option Error
  -- `json.Unmarshal` of a text into a slice
  pub unmarshal_slice : String → Result Value
  -- `json.Unmarshal` into `[]json.RawMessage` and `map[string]json.RawMessage`
  pub unmarshal_raw_list : String → Result (List String)
  pub unmarshal_raw_map : String → Result (StringMap String)
  -- `json.Unmarshal` into `map[string]string`, its error ignored
  pub unmarshal_string_map : String → StringMap String
  -- `json.Unmarshal` into a plan, and `json.Marshal` of one
  pub unmarshal_plan : String → Result ServicePlan
  pub marshal_plan : ServicePlan → Result String
  -- `json.Marshal`
  pub marshal_object : Object → Result String
  pub marshal_raw_map : StringMap String → Result String
  -- `interpolation.Eval`
  pub eval : String → Object → Result Value
  -- `interpolation.IsHILExpression`
  pub is_hil_expression : String → Bool
  -- `unicode.IsSpace`, `strings.ToUpper` and `strings.TrimSpace`
  pub is_space : Char → Bool
  pub to_upper : String → String
  pub trim_space : String → String
  -- `cast.ToStringE` and the others
  pub to_string : Value → Result String
  pub to_string_map : Value → Result Value
  pub to_bool : Value → Result Value
  pub to_slice : Value → Result Value
  pub to_float64 : Value → Result Value
  pub to_int : Value → Result Value
  -- `invalidLabelChars.ReplaceAllString(value, "_")`
  pub replace_invalid_label_chars : String → String
  -- `utils.PropertyToEnvUnprefixed`'s replacer, on a text in upper case
  pub replace_property_chars : String → String
  -- `strings.TrimPrefix(v, prefix)`, the prefix first
  pub trim_prefix : String → String → String
  -- the errors that `gojsonschema.Validate` finds, the schema first
  pub schema_errors : Object → Object → Result (List Error)
  -- `viper.IsSet`, `GetString`, `GetBool`, `GetStringMap`
  pub viper_is_set : String → Bool
  pub viper_string : String → String
  pub viper_bool : String → Bool
  pub viper_string_map : String → Object
  -- `os.Getenv`
  pub getenv : String → String
