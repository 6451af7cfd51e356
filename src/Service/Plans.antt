-- ===== src/Service/Plans.antt =====
-- The plans of a service: its own, those of the operator, and the catalog entry.
pub mod Laws
use Prim.Native.String.{◌++◌ as append}
use cloud_service_broker.Prelude.{
  String, Bool, true, false, not, ◌&&◌, Option, none, some, List, [], ◌∷◌, ◌++◌, ◌==◌, is_some, map,
  if◌then◌else◌,
}
use cloud_service_broker.Prelude.Rows.{find}
use cloud_service_broker.Prelude.StringMap.{StringMap, lookup}
use cloud_service_broker.Outcome.{Result, ok, err, plain, wrapped, ◌>>=◌}
use cloud_service_broker.Json.{Value, text, Object}
use cloud_service_broker.Externals.{Externals}
use cloud_service_broker.Catalog.{ServiceSchemas, ServicePlan, Service}
use cloud_service_broker.Toggles.{Toggle, features, new_toggle, is_active}
use cloud_service_broker.Service.Schema.{BrokerVariable, create_json_schema}
use cloud_service_broker.Service.Definition.{ServiceDefinition}

abbrev pub enable_catalog_schemas : Toggle
enable_catalog_schemas =
    new_toggle features "enable-catalog-schemas" false
      "Enable generating JSONSchema for the service catalog."

abbrev pub has_plan_id : String → ServicePlan → Bool
has_plan_id id plan = plan.id == id

values : {V : Type 0} → StringMap V → List V
values [] = []
values ((_, v) ∷ m) = v ∷ values m

-- The entries whose keys the second map does not have.
without_keys : StringMap String → StringMap String → StringMap String
without_keys used [] = []
without_keys used ((k, v) ∷ m) =
    let rest = without_keys used m in if is_some (lookup k used) then rest else (k, v) ∷ rest

missing_property : List BrokerVariable → Object → Bool
missing_property [] properties = false
missing_property (v ∷ vs) properties =
    if v.required && not (is_some (lookup v.field_name properties))
    then true
    else missing_property vs properties

guid : Option Value → String
guid (some (text s)) = s
guid _ = ""

module _ (x : Externals) where
  -- utils `jsonDiff`
  unfoldable pub json_diff : String → String → Result String
  unfolding without_keys
  json_diff superset subset = do
    used_keys ← x.unmarshal_raw_map subset
    all_keys ← x.unmarshal_raw_map superset
    x.marshal_raw_map (without_keys used_keys all_keys)

  -- utils `UnmarshalObjectRemainder`, into a plan
  unfoldable pub unmarshal_object_remainder : String → Result (ServicePlan × String)
  unfolding json_diff
  unmarshal_object_remainder raw = do
    plan ← x.unmarshal_plan raw
    encoded ← x.marshal_plan plan
    remainder ← json_diff raw encoded
    ok (plan, remainder)

  unmarshal_map : String → Result Object
  unmarshal_map raw = elim (x.unmarshal_object raw).1 [
    | none ↦ ok (x.unmarshal_object raw).0
    | some e ↦ err e
  ]

  module _ {P : Type 0} (svc : ServiceDefinition P) where
    unfoldable pub user_defined_plans_property : String
    user_defined_plans_property = append "service." (append svc.name ".plans")

    unfoldable pub tile_user_defined_plans_variable : String
    tile_user_defined_plans_variable =
        append (x.trim_prefix "GOOGLE_" (x.replace_property_chars (x.to_upper svc.name)))
          "_CUSTOM_PLANS"

    unfoldable pub validate_plan : ServicePlan → Result (Unit {0})
    unfolding missing_property
    validate_plan plan =
        if plan.id == ""
        then err (wrapped svc.name (plain " custom plan is missing an id") "")
        else if plan.name == ""
        then err (wrapped svc.name (plain " custom plan is missing a name") "")
        else if missing_property svc.plan_variables plan.service_properties
        then err (wrapped svc.name (plain " custom plan is missing a required property") "")
        else ok tt

    raw_config_plans : Result (List String)
    unfolding user_defined_plans_property
    raw_config_plans =
        if x.viper_string user_defined_plans_property == ""
        then ok []
        else x.unmarshal_raw_list (x.viper_string user_defined_plans_property)

    raw_tile_plans : Result (List String)
    unfolding tile_user_defined_plans_variable values
    raw_tile_plans = if x.getenv tile_user_defined_plans_variable == "" then ok [] else (do
      plans ← x.unmarshal_raw_map (x.getenv tile_user_defined_plans_variable)
      ok (values plans))

    -- A plan of the tile has its id in the property `guid`.
    with_guid : ServicePlan → ServicePlan
    unfolding guid
    with_guid plan =
        if plan.id == ""
        then record plan { id = guid (lookup "guid" plan.service_properties) }
        else plan

    unfoldable pub decode_plan : String → Result ServicePlan
    unfolding unmarshal_object_remainder unmarshal_map with_guid validate_plan
    decode_plan raw = do
      (plan, remainder) ← unmarshal_object_remainder raw
      properties ← unmarshal_map remainder
      let decoded = with_guid (record plan { service_properties = properties })
      valid ← validate_plan decoded
      ok decoded

    unfoldable pub decode_plans : List String → Result (List ServicePlan)
    unfolding decode_plan
    decode_plans [] = ok []
    decode_plans (raw ∷ raws) = do
      plan ← decode_plan raw
      plans ← decode_plans raws
      ok (plan ∷ plans)

    unfoldable pub user_defined_plans : Result (List ServicePlan)
    unfolding raw_config_plans raw_tile_plans decode_plans
    user_defined_plans = do
      config ← raw_config_plans
      tile ← raw_tile_plans
      decode_plans (config ++ tile)

    unfoldable pub create_schemas : ServiceSchemas
    create_schemas = record {
      instance_create = create_json_schema x svc.provision_input_variables;
      binding_create = create_json_schema x svc.bind_input_variables;
    }

    with_schemas : List ServicePlan → List ServicePlan
    unfolding create_schemas is_active
    with_schemas plans =
        if is_active x enable_catalog_schemas
        then map (λ (plan : ServicePlan). record plan { schemas = some create_schemas }) plans
        else plans

    unfoldable pub catalog_entry : Result Service
    unfolding user_defined_plans with_schemas
    catalog_entry = do
      user_plans ← user_defined_plans
      ok (record {
        id = svc.id;
        name = svc.name;
        description = svc.description;
        metadata = record {
          display_name = svc.display_name;
          long_description = svc.description;
          documentation_url = svc.documentation_url;
          image_url = svc.image_url;
          support_url = svc.support_url;
        };
        tags = svc.tags;
        bindable = svc.bindable;
        plan_updatable = svc.plan_updateable;
        plans = with_schemas (svc.plans ++ user_plans);
      })

    unfoldable pub get_plan_by_id : String → Result ServicePlan
    unfolding catalog_entry
    get_plan_by_id plan_id = do
      entry ← catalog_entry
      elim (find (has_plan_id plan_id) entry.plans) [
        | some plan ↦ ok plan
        | none ↦ err (wrapped "Plan ID " (plain plan_id) " could not be found")
      ]
