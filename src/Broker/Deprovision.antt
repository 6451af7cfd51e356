-- ===== src/Broker/Deprovision.antt =====
-- `Deprovision`
pub mod Records
use cloud_service_broker.Prelude.{String, Bool, true, false, Option, none, some}
use cloud_service_broker.Outcome.Exec.{Exec, query, pure, ◌>>=◌, ◌>>◌, or_raise}
use cloud_service_broker.Models.{ServiceInstanceDetails, deprovision_operation_type}
use cloud_service_broker.Dao.Instances.{
  save_service_instance_details, delete_service_instance_details_by_id,
}
use cloud_service_broker.Service.Provider.{DeprovisionDetails}
use cloud_service_broker.Broker.State.{ServiceBroker, State, on_instances, on_provider}
use cloud_service_broker.Broker.Checks.{check_deprovision, because}

pub record DeprovisionServiceSpec : Type 0 where
  pub is_async : Bool
  pub operation_data : String

abbrev pub deprovisioning : ServiceInstanceDetails → String → ServiceInstanceDetails
deprovisioning instance' operation_id = record instance' {
  operation_type = deprovision_operation_type;
  operation_id = operation_id;
}

module _ {P K : Type 0} (b : ServiceBroker P K) where
  -- What follows the provider's call: at once, or when the operation is done.
  unfoldable pub record_deprovision :
      String → ServiceInstanceDetails → Option String → Exec (State b) DeprovisionServiceSpec
  record_deprovision instance_id instance' none = do
    or_raise (on_instances b (delete_service_instance_details_by_id b.instance_gorm instance_id)) (
        because "Error deleting instance details from database: "
          ". WARNING: this instance will remain visible in cf. Contact your operator for cleanup")
    pure (record { is_async = false; operation_data = "" })
  record_deprovision instance_id instance' (some operation_id) = do
    or_raise
        (on_instances b
          (save_service_instance_details b.instance_gorm (deprovisioning instance' operation_id)))
        (because "Error saving instance details to database: "
          ". WARNING: this instance will remain visible in cf. Contact your operator for cleanup.")
    pure (record { is_async = true; operation_data = operation_id })

  unfoldable pub deprovision :
      String → DeprovisionDetails → Bool → Exec (State b) DeprovisionServiceSpec
  deprovision instance_id details client_supports_async = do
    (instance', service_provider, vars) ←
        query (check_deprovision b instance_id details client_supports_async)
    operation_id ← on_provider b (service_provider.deprovision instance' details vars)
    record_deprovision instance_id instance' operation_id
