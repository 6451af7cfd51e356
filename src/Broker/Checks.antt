-- ===== src/Broker/Checks.antt =====
-- What each call reads and tests before it changes anything, in the order of the code.
pub mod Providers
use cloud_service_broker.Prelude.{String, Bool, none, not, ◌&&◌, ◌||◌, ◌==◌}
use cloud_service_broker.Outcome.{
  Error, Result, ok, ◌>>=◌, guard, or_raise, plain, wrapped, instance_already_exists,
  instance_does_not_exist, binding_already_exists, binding_does_not_exist, async_required,
  invalid_user_input, non_updatable_parameter,
}
use cloud_service_broker.Externals.{Externals}
use cloud_service_broker.Models.{
  ServiceInstanceDetails, ServiceBindingCredentials, ProvisionRequestDetails,
}
use cloud_service_broker.Dao.Instances.{
  get_service_instance_details_by_id, exists_service_instance_details_by_id,
}
use cloud_service_broker.Dao.Bindings.{
  exists_service_binding_credentials_by_service_instance_id_and_binding_id,
  get_service_binding_credentials_by_service_instance_id_and_binding_id,
}
use cloud_service_broker.Dao.Requests.{get_provision_request_details_by_instance_id}
use cloud_service_broker.VarContext.{VarContext}
use cloud_service_broker.Service.Provider.{ServiceProvider, DeprovisionDetails}
use cloud_service_broker.Service.Definition.{ServiceDefinition}
use cloud_service_broker.Service.Plans.{get_plan_by_id}
use cloud_service_broker.Service.Variables.{
  ProvisionDetails, UpdateDetails, BindDetails, provision_variables, update_variables,
  bind_variables, allowed_update,
}
use cloud_service_broker.Registry.{get_service_by_id}
use cloud_service_broker.Broker.State.{ServiceBroker, State}

pub record UnbindDetails : Type 0 where
  pub service_id : String
  pub plan_id : String

unfoldable pub is_valid_or_empty_json : Externals → String → Bool
is_valid_or_empty_json x msg = msg == "" || x.valid_json msg

abbrev pub replace_by : Error → Error → Error
replace_by e _ = e

abbrev pub because : String → String → Error → Error
because before behind cause = wrapped before cause behind

-- The definition stands for its provider too.
unfoldable pub get_definition_and_provider :
    {P K : Type 0} → ServiceBroker P K → String → Result (ServiceDefinition P)
get_definition_and_provider b service_id = get_service_by_id b.registry service_id

module _ {P K : Type 0} (b : ServiceBroker P K) where
  unfoldable pub check_provision :
      String → ProvisionDetails → Bool → State b → Result (ServiceProvider P × VarContext)
  unfolding get_definition_and_provider is_valid_or_empty_json
  check_provision instance_id details client_supports_async s = do
    exists ←
        or_raise (exists_service_instance_details_by_id b.instance_gorm instance_id s.instances)
          (because "Database error checking for existing instance: " "")
    fresh ← guard (not exists) instance_already_exists
    broker_service ← get_definition_and_provider b details.service_id
    plan ← get_plan_by_id b.externals broker_service details.plan_id
    async_ok ←
        guard (not (broker_service.provider.provisions_async && not client_supports_async))
          async_required
    valid ← guard (is_valid_or_empty_json b.externals details.raw_parameters) invalid_user_input
    vars ← provision_variables b.externals broker_service instance_id details plan
    ok (broker_service.provider, vars)

  get_request : String → State b → Result ProvisionRequestDetails
  get_request instance_id s =
      or_raise (get_provision_request_details_by_instance_id b.request_gorm instance_id s.requests)
        (replace_by (wrapped "updating non-existent instanceid: " (plain instance_id) ""))

  get_instance : String → State b → Result ServiceInstanceDetails
  get_instance instance_id s =
      get_service_instance_details_by_id b.instance_gorm instance_id s.instances

  unfoldable pub check_deprovision :
      String
      → DeprovisionDetails
      → Bool
      → State b
      → Result (ServiceInstanceDetails × ServiceProvider P × VarContext)
  unfolding get_definition_and_provider get_instance get_request
  check_deprovision instance_id details client_supports_async s = do
    instance' ← or_raise (get_instance instance_id s) (replace_by instance_does_not_exist)
    broker_service ← get_definition_and_provider b instance'.service_id
    plan ← get_plan_by_id b.externals broker_service details.plan_id
    async_ok ←
        guard (not (broker_service.provider.deprovisions_async && not client_supports_async))
          async_required
    pr ← get_request instance_id s
    vars ←
        provision_variables b.externals broker_service instance_id
          (record {
            service_id = details.service_id;
            plan_id = details.plan_id;
            organization_guid = "";
            space_guid = "";
            raw_context = "";
            raw_parameters = pr.request_details;
          })
          plan
    ok (instance', broker_service.provider, vars)

  unfoldable pub check_bind :
      String
      → String
      → BindDetails
      → State b
      → Result (ServiceInstanceDetails × ServiceDefinition P × VarContext)
  unfolding get_definition_and_provider is_valid_or_empty_json get_instance
  check_bind instance_id binding_id details s = do
    exists ←
        or_raise
          (exists_service_binding_credentials_by_service_instance_id_and_binding_id b.binding_gorm
            instance_id binding_id s.bindings)
          (because "Error checking for existing binding: " "")
    fresh ← guard (not exists) binding_already_exists
    instance_record ←
        or_raise (get_instance instance_id s)
          (because "Error retrieving service instance details: " "")
    service_definition ← get_definition_and_provider b instance_record.service_id
    plan ← get_plan_by_id b.externals service_definition details.plan_id
    valid ← guard (is_valid_or_empty_json b.externals details.raw_parameters) invalid_user_input
    vars ← bind_variables b.externals service_definition instance_record binding_id details plan
    ok (instance_record, service_definition, vars)

  unfoldable pub check_unbind :
      String
      → String
      → UnbindDetails
      → State b
      → Result
          (ServiceInstanceDetails × ServiceBindingCredentials × ServiceDefinition P × VarContext)
  unfolding get_definition_and_provider get_instance get_request
  check_unbind instance_id binding_id details s = do
    service_definition ← get_definition_and_provider b details.service_id
    existing_binding ←
        or_raise
          (get_service_binding_credentials_by_service_instance_id_and_binding_id b.binding_gorm
            instance_id binding_id s.bindings)
          (replace_by binding_does_not_exist)
    instance' ←
        or_raise (get_instance instance_id s)
          (because "Error retrieving service instance details: " "")
    plan ← get_plan_by_id b.externals service_definition details.plan_id
    pr ← get_request instance_id s
    vars ←
        bind_variables b.externals service_definition instance' binding_id
          (record {
            service_id = details.service_id;
            plan_id = details.plan_id;
            app_guid = "";
            bind_resource = none;
            raw_parameters = pr.request_details;
          })
          plan
    ok (instance', existing_binding, service_definition, vars)

  unfoldable pub check_last_operation :
      String → State b → Result (ServiceInstanceDetails × ServiceProvider P)
  unfolding get_definition_and_provider get_instance
  check_last_operation instance_id s = do
    instance' ← or_raise (get_instance instance_id s) (replace_by instance_does_not_exist)
    broker_service ← get_definition_and_provider b instance'.service_id
    is_async ←
        guard
          (broker_service.provider.provisions_async || broker_service.provider.deprovisions_async)
          async_required
    ok (instance', broker_service.provider)

  unfoldable pub check_update :
      String
      → UpdateDetails
      → Bool
      → State b
      → Result (ServiceInstanceDetails × ServiceProvider P × VarContext)
  unfolding get_definition_and_provider is_valid_or_empty_json get_instance get_request
  check_update instance_id details async_allowed s = do
    instance' ← or_raise (get_instance instance_id s) (replace_by instance_does_not_exist)
    broker_service ← get_definition_and_provider b instance'.service_id
    plan ← get_plan_by_id b.externals broker_service details.plan_id
    async_ok ←
        guard (not (broker_service.provider.provisions_async && not async_allowed)) async_required
    valid ← guard (is_valid_or_empty_json b.externals details.raw_parameters) invalid_user_input
    allow_update ← allowed_update b.externals broker_service details
    updatable ← guard allow_update non_updatable_parameter
    pr ← get_request instance_id s
    vars ← update_variables b.externals broker_service instance_id details pr.request_details plan
    ok (instance', broker_service.provider, vars)
