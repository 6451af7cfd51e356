-- ===== src/Broker/Provision.antt =====
-- `Provision`
pub mod Records
use cloud_service_broker.Prelude.{String, Bool}
use cloud_service_broker.Outcome.Exec.{Exec, query, pure, ◌>>=◌, ◌>>◌, or_raise}
use cloud_service_broker.Models.{ServiceInstanceDetails, ProvisionRequestDetails}
use cloud_service_broker.Dao.Instances.{create_service_instance_details}
use cloud_service_broker.Dao.Requests.{create_provision_request_details}
use cloud_service_broker.Service.Variables.{ProvisionDetails}
use cloud_service_broker.Broker.State.{ServiceBroker, State, on_instances, on_requests, on_provider}
use cloud_service_broker.Broker.Checks.{check_provision, because}

pub record ProvisionedServiceSpec : Type 0 where
  pub is_async : Bool
  pub dashboard_url : String
  pub operation_data : String

-- The provider's details with the request's identifiers.
abbrev pub identified : String → ProvisionDetails → ServiceInstanceDetails → ServiceInstanceDetails
identified instance_id details d = record d {
  service_id = details.service_id;
  id = instance_id;
  plan_id = details.plan_id;
  space_guid = details.space_guid;
  organization_guid = details.organization_guid;
}

abbrev pub request_of : String → ProvisionDetails → ProvisionRequestDetails
request_of instance_id details = record {
  id = 0;
  service_instance_id = instance_id;
  request_details = details.raw_parameters;
}

module _ {P K : Type 0} (b : ServiceBroker P K) where
  -- The writes that follow the provider's call.
  unfoldable pub record_instance :
      ServiceInstanceDetails → ProvisionRequestDetails → Exec (State b) (Unit {0})
  record_instance instance_details pr = do
    or_raise (on_instances b (create_service_instance_details b.instance_gorm instance_details)) (
        because "Error saving instance details to database: "
          ". WARNING: this instance cannot be deprovisioned through cf. Contact your operator for cleanup")
    or_raise (on_requests b (create_provision_request_details b.request_gorm pr)) (
        because "Error saving provision request details to database: "
          ". Services relying on async provisioning will not be able to complete provisioning")

  unfoldable pub provision :
      String → ProvisionDetails → Bool → Exec (State b) ProvisionedServiceSpec
  provision instance_id details client_supports_async = do
    (service_helper, vars) ← query (check_provision b instance_id details client_supports_async)
    instance_details ← on_provider b (service_helper.provision vars)
    record_instance (identified instance_id details instance_details)
        (request_of instance_id details)
    pure (record {
      is_async = service_helper.provisions_async;
      dashboard_url = "";
      operation_data = instance_details.operation_id;
    })
