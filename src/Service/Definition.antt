-- ===== src/Service/Definition.antt =====
-- The state of a `ServiceDefinition` of pkg/broker/service_definition.go.
use cloud_service_broker.Prelude.{String, Bool, Option, List}
use cloud_service_broker.Json.{Object}
use cloud_service_broker.Catalog.{ServicePlan}
use cloud_service_broker.VarContext.Builder.{DefaultVariable}
use cloud_service_broker.Service.Schema.{BrokerVariable}
use cloud_service_broker.Service.Provider.{ServiceProvider}

-- pkg/broker/example.go. A nil `BindParams` is none.
pub record ServiceExample : Type 0 where
  pub name : String
  pub description : String
  pub plan_id : String
  pub provision_params : Object
  pub bind_params : Option Object
  pub bind_can_fail : Bool

-- `provider` is what `ProviderBuilder` returns; the logger that it takes is not modelled.
pub record ServiceDefinition (P : Type 0) : Type 0 where
  pub id : String
  pub name : String
  pub description : String
  pub display_name : String
  pub image_url : String
  pub documentation_url : String
  pub support_url : String
  pub tags : List String
  pub bindable : Bool
  pub plan_updateable : Bool
  pub plans : List ServicePlan
  pub provision_input_variables : List BrokerVariable
  pub provision_computed_variables : List DefaultVariable
  pub bind_input_variables : List BrokerVariable
  pub bind_output_variables : List BrokerVariable
  pub bind_computed_variables : List DefaultVariable
  pub plan_variables : List BrokerVariable
  pub examples : List ServiceExample
  pub provider : ServiceProvider P
  pub is_builtin : Bool
