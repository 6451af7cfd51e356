-- ===== src/Broker/Update.antt =====
-- `Update`
pub mod Records
use cloud_service_broker.Prelude.{String, Bool}
use cloud_service_broker.Outcome.Exec.{Exec, query, pure, ◌>>=◌, ◌>>◌, or_raise}
use cloud_service_broker.Models.{ServiceInstanceDetails}
use cloud_service_broker.Dao.Instances.{save_service_instance_details}
use cloud_service_broker.Service.Variables.{UpdateDetails}
use cloud_service_broker.Broker.State.{ServiceBroker, State, on_instances, on_provider}
use cloud_service_broker.Broker.Checks.{check_update, because}

pub record UpdateServiceSpec : Type 0 where
  pub is_async : Bool
  pub dashboard_url : String
  pub operation_data : String

module _ {P K : Type 0} (b : ServiceBroker P K) where
  unfoldable pub save_plan :
      ServiceInstanceDetails → ServiceInstanceDetails → Exec (State b) (Unit {0})
  save_plan instance' new_instance_details =
      or_raise
        (on_instances b (
          save_service_instance_details b.instance_gorm
            (record instance' { plan_id = new_instance_details.plan_id })))
        (because "Error saving instance details to database: "
          ". WARNING: this instance cannot be deprovisioned through cf. Contact your operator for cleanup")

  unfoldable pub update : String → UpdateDetails → Bool → Exec (State b) UpdateServiceSpec
  update instance_id details async_allowed = do
    (instance', service_helper, vars) ← query (check_update b instance_id details async_allowed)
    new_instance_details ← on_provider b (service_helper.update vars)
    save_plan instance' new_instance_details
    pure (record {
      is_async = service_helper.provisions_async;
      dashboard_url = "";
      operation_data = new_instance_details.operation_id;
    })
