-- ===== src/Service/Schema.antt =====
-- pkg/broker/variables.go: variables declared by a service, and the JSON schema of their values.
use Prim.Native.Char.{Char, code}
use Prim.Native.String.{◌++◌}
use cloud_service_broker.Prelude.{
  String, Bool, true, ◌||◌, none, some, List, [], ◌∷◌, map, ◌==◌, nat_eq, is_some, if◌then◌else◌,
}
use cloud_service_broker.Prelude.StringMap.{StringMap, lookup, insert, merge}
use cloud_service_broker.Prelude.Sorting.{sort_by}
use cloud_service_broker.Outcome.{Error, Result, ok, err, multierror}
use cloud_service_broker.Json.{
  Value, null, boolean, text, array, object, Items, nil, cons, Object, to_fields,
}
use cloud_service_broker.Externals.{Externals}
use cloud_service_broker.StringSet
use cloud_service_broker.StringSet.{StringSet}

pub record BrokerVariable : Type 0 where
  pub required : Bool
  pub field_name : String
  pub type_name : String
  pub details : String
  pub default_value : Value
  -- the keys of the map, each with `fmt.Sprintf("%v", k)`
  pub enumeration : List (String × Value)
  pub constraints : Object
  pub prohibit_update : Bool

abbrev push : String → Char → String
push s c = s ++ (String.◌∷◌ c String.[])

close : String → List String → List String
close field rest = if field == "" then rest else field ∷ rest

-- `strings.FieldsFunc`
fields_from : (Char → Bool) → String → String → List String
unfolding close
fields_from is_sep field String.[] = close field []
fields_from is_sep field (String.◌∷◌ c s) =
    let closed = close field (fields_from is_sep "" s) in
    let longer = fields_from is_sep (push field c) s in if is_sep c then closed else longer

acronyms : StringMap String
acronyms = ("id", "ID") ∷ ("uri", "URI") ∷ ("url", "URL") ∷ ("gb", "GB") ∷ ("jdbc", "JDBC") ∷ []

join : String → List String → String
join sep [] = ""
join sep (s ∷ []) = s
join sep (s ∷ t ∷ ts) = s ++ (sep ++ join sep (t ∷ ts))

items : List (String × Value) → Items
items [] = nil
items ((_, v) ∷ es) = cons v (items es)

abbrev sort_key : String × Value → String
sort_key e = e.0

module _ (x : Externals) where
  is_separator : Char → Bool
  is_separator c =
      x.is_space c || nat_eq (code c) b'-' || nat_eq (code c) b'_' || nat_eq (code c) b'.'

  -- `strings.ToUpper(c[:1]) + c[1:]`, for a first character of one byte.
  capitalised : String → String
  capitalised String.[] = ""
  capitalised (String.◌∷◌ c s) = x.to_upper (String.◌∷◌ c String.[]) ++ s

  label_component : String → String
  unfolding acronyms capitalised
  label_component c = elim (lookup c acronyms) [ some replace ↦ replace | none ↦ capitalised c ]

  unfoldable pub field_name_to_label : String → String
  unfolding is_separator label_component fields_from join
  field_name_to_label name = join " " (map label_component (fields_from is_separator "" name))

  -- A default that is a template goes into the description.
  with_default : BrokerVariable → Value → Object → Object
  with_default bv null schema = schema
  with_default bv (text s) schema =
      if x.is_hil_expression s
      then insert "description"
          (text (
            x.trim_space (
              bv.details
              ++ (" If you do not specify this field, it will be generated by the template "
                  ++ s))))
          schema
      else insert "default" (text s) schema
  with_default bv v schema = insert "default" v schema

  unfoldable pub to_schema : BrokerVariable → Object
  unfolding field_name_to_label with_default items
  to_schema bv =
      let titled =
        if bv.field_name == ""
        then []
        else insert "title" (text (field_name_to_label bv.field_name)) [] in
      let constrained = merge titled bv.constraints in
      let enumerated : Object = elim bv.enumeration [
        | [] ↦ constrained
        | _ ∷ _ ↦ insert "enum" (array (items (sort_by sort_key bv.enumeration))) constrained
      ] in
      let described =
        if bv.details == ""
        then enumerated
        else insert "description" (text bv.details) enumerated in
      let typed =
        if bv.type_name == "" then described else insert "type" (text bv.type_name) described in
      let defaulted = with_default bv bv.default_value typed in
      if bv.prohibit_update then insert "prohibitUpdate" (boolean true) defaulted else defaulted

  -- The schemas of the properties; for two variables of one name the last counts.
  properties : List BrokerVariable → Object → Object
  unfolding to_schema
  properties [] found = found
  properties (v ∷ vs) found =
      properties vs (insert v.field_name (object (to_fields (to_schema v))) found)

  required_names : List BrokerVariable → StringSet → StringSet
  unfolding StringSet.add_one
  required_names [] found = found
  required_names (v ∷ vs) found =
      required_names vs (if v.required then StringSet.add_one v.field_name found else found)

  string_items : List String → Items
  string_items [] = nil
  string_items (s ∷ ss) = cons (text s) (string_items ss)

  unfoldable pub create_json_schema : List BrokerVariable → Object
  unfolding properties required_names string_items StringSet.is_empty StringSet.to_slice
  create_json_schema variables =
      let required = required_names variables StringSet.empty in
      let schema : Object =
        ("$schema", text "http://json-schema.org/draft-04/schema#")
        ∷ ("type", text "object")
        ∷ ("properties", object (to_fields (properties variables [])))
        ∷ [] in
      if StringSet.is_empty required
      then schema
      else insert "required" (array (string_items (StringSet.to_slice required))) schema

  failures : List Error → Result (Unit {0})
  failures [] = ok tt
  failures (e ∷ es) = err (multierror e es)

  unfoldable pub validate_variables_against_schema : Object → Object → Result (Unit {0})
  unfolding failures
  validate_variables_against_schema parameters schema = elim (x.schema_errors schema parameters) [
    | err e ↦ err e
    | ok es ↦ failures es
  ]

  unfoldable pub validate_variables : Object → List BrokerVariable → Result (Unit {0})
  unfolding create_json_schema validate_variables_against_schema
  validate_variables parameters variables =
      validate_variables_against_schema parameters (create_json_schema variables)

-- `ApplyDefaults`
unfoldable pub apply_defaults : Object → List BrokerVariable → Object
apply_defaults parameters [] = parameters
apply_defaults parameters (v ∷ vs) =
    apply_defaults
      (if is_some (lookup v.field_name parameters) then parameters else elim v.default_value [
        | null ↦ parameters
        | _ ↦ insert v.field_name v.default_value parameters
      ])
      vs
