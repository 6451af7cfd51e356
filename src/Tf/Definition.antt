-- ===== src/Tf/Definition.antt =====
-- pkg/providers/tf/definition.go: services that are described by Terraform templates.
pub mod Templates
pub mod Validity
pub mod Service
pub mod Laws
pub mod Inputs
use Prim.Native.String.{◌++◌}
use cloud_service_broker.Prelude.{
  String, Bool, true, false, ◌&&◌, ◌==◌, none, some, List, [], ◌∷◌, if◌then◌else◌,
}
use cloud_service_broker.Prelude.StringMap.{StringMap}
use cloud_service_broker.Json.{Object}
use cloud_service_broker.Externals.{Externals}
use cloud_service_broker.VarContext.{VarContext, has_key, get_bool}
use cloud_service_broker.VarContext.Builder.{DefaultVariable}
use cloud_service_broker.Catalog.{ServicePlan}
use cloud_service_broker.Service.Schema.{BrokerVariable}
use cloud_service_broker.Service.Definition.{ServiceExample}
use cloud_service_broker.Tf.Module.{ℤ}

pub record ImportVariable : Type 0 where
  pub name : String
  pub type_name : String
  pub details : String
  pub tf_resource : String

pub record ImportParameterMapping : Type 0 where
  pub tf_variable : String
  pub parameter_name : String

pub record TfServiceDefinitionV1Plan : Type 0 where
  pub name : String
  pub id : String
  pub description : String
  pub display_name : String
  pub bullets : List String
  pub free : Bool
  pub properties : Object
  pub provision_overrides : Object
  pub bind_overrides : Object

pub record TfServiceDefinitionV1Action : Type 0 where
  pub plan_inputs : List BrokerVariable
  pub user_inputs : List BrokerVariable
  pub computed : List DefaultVariable
  pub template : String
  pub template_ref : String
  pub outputs : List BrokerVariable
  pub templates : StringMap String
  pub template_refs : StringMap String
  pub import_variables : List ImportVariable
  pub import_parameter_mappings : List ImportParameterMapping
  pub import_parameters_to_delete : List String
  pub import_parameters_to_add : List ImportParameterMapping

pub record TfServiceDefinitionV1 : Type 0 where
  pub version : ℤ
  pub name : String
  pub id : String
  pub description : String
  pub display_name : String
  pub image_url : String
  pub documentation_url : String
  pub support_url : String
  pub tags : List String
  pub plans : List TfServiceDefinitionV1Plan
  pub provision_settings : TfServiceDefinitionV1Action
  pub bind_settings : TfServiceDefinitionV1Action
  pub examples : List ServiceExample
  pub plan_updateable : Bool
  pub required_env_vars : List String

unfoldable pub to_plan : TfServiceDefinitionV1Plan → ServicePlan
to_plan plan = record {
  id = plan.id;
  name = plan.name;
  description = plan.description;
  free = some plan.free;
  metadata = some (record { bullets = plan.bullets; display_name = plan.display_name });
  schemas = none;
  service_properties = plan.properties;
  provision_overrides = plan.provision_overrides;
  bind_overrides = plan.bind_overrides;
}

unfoldable pub generate_tf_id : String → String → String
generate_tf_id instance_id binding_id = "tf:" ++ (instance_id ++ (":" ++ binding_id))

module _ (x : Externals) where
  -- A value of `subsume` that is no boolean leaves an error in the context.
  subsumes : List BrokerVariable → VarContext → Bool × VarContext
  subsumes [] vc = (false, vc)
  subsumes (plan_input ∷ plan_inputs) vc =
      let rest = subsumes plan_inputs in
      if plan_input.field_name == "subsume" && has_key "subsume" vc
      then (let (on, vc') = get_bool x "subsume" vc in if on then (true, vc') else rest vc')
      else rest vc

  unfoldable pub is_tf_import : TfServiceDefinitionV1Action → VarContext → Bool × VarContext
  unfolding subsumes
  is_tf_import action vc = subsumes action.plan_inputs vc
