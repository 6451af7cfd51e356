-- ===== src/Tests/Polls.antt =====
-- Polls of operations.
use cloud_service_broker.Prelude.{◌≡◌, refl, none, some, arith, ◌==◌, if◌then◌else◌}
use cloud_service_broker.Outcome.{ok}
use cloud_service_broker.Models.{ServiceInstanceDetails}
use cloud_service_broker.Service.Provider.{ServiceProvider}
use cloud_service_broker.Broker.View.{instance_row}
use cloud_service_broker.Broker.LastOperation.{
  update_state_on_operation_completion, in_progress, succeeded, last_operation,
}
use cloud_service_broker.Broker.LastOperation.Records.{
  last_operation_pending, last_operation_removes, last_operation_clears,
}
use cloud_service_broker.Broker.Checks.{check_last_operation}
use cloud_service_broker.Dao.Instances.{
  save_service_instance_details, get_service_instance_details_by_id,
  delete_service_instance_details_by_id,
}
use cloud_service_broker.Registry.{get_service_by_id}
use cloud_service_broker.Tests.Scene.{broker, sentinel, details_of, one_instance}

update_is_pending :
    (last_operation broker sentinel "i" (one_instance "update")).0.0.state ≡ in_progress
unfolding last_operation check_last_operation get_service_instance_details_by_id get_service_by_id
update_is_pending = refl

last_operation_pending_example :
    let s' = (last_operation broker sentinel "i" (one_instance "update")).1 in
    (s'.instances ≡ (one_instance "update").instances)
    × (s'.bindings ≡ (one_instance "update").bindings)
    × (s'.requests ≡ (one_instance "update").requests)
last_operation_pending_example =
    last_operation_pending broker sentinel "i" (one_instance "update")
      (λ h. ground (arith, h, update_is_pending))

removal_succeeds :
    (last_operation broker sentinel "i" (one_instance "deprovision")).0
    ≡ (record { state = succeeded; description = "done" }, none)
unfolding last_operation check_last_operation get_service_instance_details_by_id get_service_by_id
    update_state_on_operation_completion delete_service_instance_details_by_id
removal_succeeds = refl

last_operation_removes_example :
    instance_row broker "i" (last_operation broker sentinel "i" (one_instance "deprovision")).1
    ≡ none
last_operation_removes_example =
    last_operation_removes broker sentinel "i" (one_instance "deprovision")
      (details_of "deprovision") "done" refl refl removal_succeeds

provision_succeeds :
    (last_operation broker sentinel "i" (one_instance "provision")).0
    ≡ (record { state = succeeded; description = "done" }, none)
unfolding last_operation check_last_operation get_service_instance_details_by_id get_service_by_id
    update_state_on_operation_completion save_service_instance_details
provision_succeeds = refl

last_operation_clears_example :
    (helper : ServiceProvider (Unit {0})) × (new : ServiceInstanceDetails) × (check_last_operation
        broker "i"
        (one_instance "provision")
      ≡ ok (details_of "provision", helper))
    × ((helper.update_instance_details
          (details_of "provision")
          (helper.poll_instance (details_of "provision") tt).1).0
        ≡ ok new)
    × (instance_row broker new.id (last_operation broker sentinel "i" (one_instance "provision")).1
        ≡ some (record new { operation_id = ""; operation_type = "" }))
    × (instance_row broker "i" (last_operation broker sentinel "i" (one_instance "provision")).1 ≡ (
        if new.id == "i"
        then some (record new { operation_id = ""; operation_type = "" })
        else some (details_of "provision")))
last_operation_clears_example =
    last_operation_clears broker sentinel "i" (one_instance "provision") (details_of "provision")
      "done" refl refl provision_succeeds
