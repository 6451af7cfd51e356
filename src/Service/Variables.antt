-- ===== src/Service/Variables.antt =====
-- The variables of a request: pkg/broker/service_definition.go and the labels of utils/utils.go.
use Prim.Native.String.{◌++◌ as append}
use cloud_service_broker.Prelude.{
  String, Bool, true, false, Option, none, some, List, [], ◌∷◌, ◌==◌, is_some, ◌&&◌, if◌then◌else◌,
}
use cloud_service_broker.Prelude.StringMap.{StringMap, lookup, insert}
use cloud_service_broker.Outcome.{Result, ok, err, plain, wrapped, ◌>>=◌}
use cloud_service_broker.Json.{text, object, Object, to_fields}
use cloud_service_broker.Externals.{Externals}
use cloud_service_broker.Models.{ServiceInstanceDetails}
use cloud_service_broker.Catalog.{ServicePlan, get_service_properties}
use cloud_service_broker.VarContext.{VarContext, to_map}
use cloud_service_broker.VarContext.Builder.{
  ContextBuilder, DefaultVariable, builder, set_eval_constants, merge_map, merge_json_object,
  merge_default, merge_defaults, build,
}
use cloud_service_broker.Service.Schema.{BrokerVariable, validate_variables}
use cloud_service_broker.Service.Definition.{ServiceDefinition}

-- The fields that the program reads of `brokerapi`'s requests. A nil message is a blank text.
pub record ProvisionDetails : Type 0 where
  pub service_id : String
  pub plan_id : String
  pub organization_guid : String
  pub space_guid : String
  pub raw_context : String
  pub raw_parameters : String

pub record UpdateDetails : Type 0 where
  pub service_id : String
  pub plan_id : String
  pub raw_parameters : String
  pub previous_org_id : String
  pub previous_space_id : String

pub record BindDetails : Type 0 where
  pub service_id : String
  pub plan_id : String
  pub app_guid : String
  -- `BindResource.AppGuid`, and none for a nil `BindResource`
  pub bind_resource : Option String
  pub raw_parameters : String

override_label : Option String → String → StringMap String → StringMap String
override_label none key labels = labels
override_label (some v) key labels = insert key v labels

sanitize : (String → String) → StringMap String → Object
sanitize f [] = []
sanitize f ((k, v) ∷ m) = (k, text (f v)) ∷ sanitize f m

unfoldable pub input_default : BrokerVariable → DefaultVariable
input_default v = record {
  name = v.field_name;
  default_value = v.default_value;
  overwrite = false;
  type_name = v.type_name;
}

-- `provisionDefaults` and `bindDefaults`
unfoldable pub input_defaults : List BrokerVariable → List DefaultVariable
unfolding input_default
input_defaults [] = []
input_defaults (v ∷ vs) = input_default v ∷ input_defaults vs

-- The loop of `AllowedUpdate` over the variables.
unfoldable pub prohibited : List BrokerVariable → Object → Bool
prohibited [] out = false
prohibited (v ∷ vs) out =
    if v.prohibit_update && is_some (lookup v.field_name out) then true else prohibited vs out

module _ (x : Externals) where
  unfoldable pub extract_default_provision_labels : String → ProvisionDetails → Object
  unfolding override_label sanitize
  extract_default_provision_labels instance_id details =
      let labels : StringMap String =
        ("pcf-organization-guid", details.organization_guid)
        ∷ ("pcf-space-guid", details.space_guid)
        ∷ ("pcf-instance-id", instance_id)
        ∷ [] in
      let context = x.unmarshal_string_map details.raw_context in
      sanitize x.replace_invalid_label_chars (
        override_label (lookup "space_guid" context) "pcf-space-guid"
          (override_label (lookup "organization_guid" context) "pcf-organization-guid" labels))

  unfoldable pub extract_default_update_labels : String → UpdateDetails → Object
  unfolding sanitize
  extract_default_update_labels instance_id details = sanitize x.replace_invalid_label_chars (
      ("pcf-organization-guid", details.previous_org_id)
      ∷ ("pcf-space-guid", details.previous_space_id)
      ∷ ("pcf-instance-id", instance_id)
      ∷ [])

  unfoldable pub unmarshal_viper : String → Result Object
  unmarshal_viper key =
      if x.viper_is_set key
      then elim (x.unmarshal_object (x.viper_string key)).1 [
        | none ↦ ok (x.unmarshal_object (x.viper_string key)).0
        | some e ↦ err (wrapped "Failed unmarshaling config value " (plain key) "")
      ]
      else ok []

  unfoldable pub provision_global_defaults : Result Object
  unfolding unmarshal_viper
  provision_global_defaults = unmarshal_viper "provision.defaults"

  unfoldable pub build_and_validate : ContextBuilder → List BrokerVariable → Result VarContext
  unfolding to_map
  build_and_validate b vars = do vc ← build b; valid ← validate_variables x (to_map vc) vars; ok vc

  -- `ServiceInstanceDetails.GetOtherDetails`, into a map
  unfoldable pub get_other_details : ServiceInstanceDetails → Result Object
  get_other_details si =
      if si.other_details == "" then ok [] else elim (x.unmarshal_object si.other_details).1 [
        | none ↦ ok (x.unmarshal_object si.other_details).0
        | some e ↦ err e
      ]

  module _ {P : Type 0} (svc : ServiceDefinition P) where
    unfoldable pub provision_default_overrides : Result Object
    unfolding unmarshal_viper
    provision_default_overrides =
        unmarshal_viper (append "service." (append svc.name ".provision.defaults"))

    unfoldable pub bind_default_overrides : Object
    bind_default_overrides =
        x.viper_string_map (append "service." (append svc.name ".bind.defaults"))

    -- The chain of `variables`, from the lowest precedence to the highest.
    unfoldable pub provision_builder :
        Object → Object → Object → String → String → ServicePlan → ContextBuilder
    unfolding set_eval_constants merge_map get_service_properties
    provision_builder constants global overrides raw_provision raw_update plan =
        let b1 = merge_map global (set_eval_constants constants builder) in
        let b2 = merge_map overrides b1 in
        let b3 = merge_json_object x raw_provision b2 in
        let b4 = merge_json_object x raw_update b3 in
        let b5 = merge_map plan.provision_overrides b4 in
        let b6 = merge_defaults x (input_defaults svc.provision_input_variables) b5 in
        let b7 = merge_map (get_service_properties plan) b6 in
        merge_defaults x svc.provision_computed_variables b7

    unfoldable pub variables : Object → String → String → ServicePlan → Result VarContext
    unfolding provision_builder provision_global_defaults provision_default_overrides
    variables constants raw_provision raw_update plan = do
      global ← provision_global_defaults
      overrides ← provision_default_overrides
      build_and_validate
          (provision_builder constants global overrides raw_provision raw_update plan)
          svc.provision_input_variables

    unfoldable pub provision_variables : String → ProvisionDetails → ServicePlan → Result VarContext
    unfolding variables build_and_validate build merge_defaults merge_default input_defaults
        merge_json_object validate_variables
    provision_variables instance_id details plan =
        variables
          (("request.plan_id", text details.plan_id)
            ∷ ("request.service_id", text details.service_id)
            ∷ ("request.instance_id", text instance_id)
            ∷ (
              "request.default_labels",
              object (to_fields (extract_default_provision_labels instance_id details)),
            )
            ∷ [])
          details.raw_parameters "{}" plan

    unfoldable pub update_variables :
        String → UpdateDetails → String → ServicePlan → Result VarContext
    unfolding variables build_and_validate build merge_defaults merge_default input_defaults
        merge_json_object validate_variables
    update_variables instance_id details provision_details plan =
        variables
          (("request.plan_id", text details.plan_id)
            ∷ ("request.service_id", text details.service_id)
            ∷ ("request.instance_id", text instance_id)
            ∷ (
              "request.default_labels",
              object (to_fields (extract_default_update_labels instance_id details)),
            )
            ∷ [])
          provision_details details.raw_parameters plan

    app_guid : Option String → String
    app_guid none = ""
    app_guid (some guid) = guid

    bind_constants : ServiceInstanceDetails → String → BindDetails → ServicePlan → Object → Object
    unfolding app_guid get_service_properties
    bind_constants instance' binding_id details plan other_details =
        ("request.binding_id", text binding_id)
        ∷ ("request.instance_id", text instance'.id)
        ∷ ("request.plan_id", text instance'.plan_id)
        ∷ ("request.service_id", text instance'.service_id)
        ∷ ("request.app_guid", text (app_guid details.bind_resource))
        ∷ ("request.plan_properties", object (to_fields (get_service_properties plan)))
        ∷ ("instance.name", text instance'.name)
        ∷ ("instance.details", object (to_fields other_details))
        ∷ []

    bind_builder : Object → BindDetails → ServicePlan → ContextBuilder
    unfolding set_eval_constants merge_map
    bind_builder constants details plan =
        let b1 = merge_map bind_default_overrides (set_eval_constants constants builder) in
        let b2 = merge_json_object x details.raw_parameters b1 in
        let b3 = merge_map plan.bind_overrides b2 in
        let b4 = merge_defaults x (input_defaults svc.bind_input_variables) b3 in
        merge_defaults x svc.bind_computed_variables b4

    unfoldable pub bind_variables :
        ServiceInstanceDetails → String → BindDetails → ServicePlan → Result VarContext
    unfolding bind_constants bind_builder get_other_details build_and_validate build merge_defaults
        merge_default input_defaults merge_json_object validate_variables
    bind_variables instance' binding_id details plan = do
      other_details ← get_other_details instance'
      build_and_validate
          (bind_builder (bind_constants instance' binding_id details plan other_details) details
            plan)
          svc.bind_input_variables

    -- Whether an update sets none of the parameters that prohibit it.
    unfoldable pub allowed_update : UpdateDetails → Result Bool
    unfolding prohibited
    allowed_update details =
        if details.raw_parameters == ""
        then ok true
        else elim (x.unmarshal_object details.raw_parameters).1 [
          | some e ↦ err e
          | none ↦
              (if prohibited svc.provision_input_variables
                  (x.unmarshal_object details.raw_parameters).0
                then ok false
                else ok true)
        ]
