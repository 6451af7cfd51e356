-- ===== src/Broker/Checks/Providers.antt =====
-- Whose provider a checked call uses.
use cloud_service_broker.Prelude.{◌≡◌, inl, inr, String, Bool, arith}
use cloud_service_broker.Outcome.{ok, Result-cases}
use cloud_service_broker.Models.{ServiceInstanceDetails}
use cloud_service_broker.VarContext.{VarContext}
use cloud_service_broker.Service.Provider.{ServiceProvider, DeprovisionDetails}
use cloud_service_broker.Service.Definition.{ServiceDefinition}
use cloud_service_broker.Registry.{get_service_by_id}
use cloud_service_broker.Broker.State.{ServiceBroker, State}
use cloud_service_broker.Broker.Checks.{check_deprovision, check_last_operation}

module _ {P K : Type 0} (b : ServiceBroker P K) where
  pub check_deprovision_provider :
      (id : String) (details : DeprovisionDetails) (async : Bool) (s : State b)
      (out : ServiceInstanceDetails × ServiceProvider P × VarContext)
      → check_deprovision b id details async s ≡ ok out
      → (sd : ServiceDefinition P) × (get_service_by_id b.registry out.0.service_id ≡ ok sd)
        × (out.1 ≡ sd.provider)
  unfolding check_deprovision
  check_deprovision_provider id details async s out h =
      elim (Result-cases (get_service_by_id b.registry out.0.service_id)) [
        | inr (e, refused) ↦ absurd (ground (arith, h, refused))
        | inl (sd, found) ↦ (sd, found, ground (arith, h, found))
      ]

  pub check_last_operation_provider :
      (id : String) (s : State b) (out : ServiceInstanceDetails × ServiceProvider P)
      → check_last_operation b id s ≡ ok out
      → (sd : ServiceDefinition P) × (get_service_by_id b.registry out.0.service_id ≡ ok sd)
        × (out.1 ≡ sd.provider)
  unfolding check_last_operation
  check_last_operation_provider id s out h =
      elim (Result-cases (get_service_by_id b.registry out.0.service_id)) [
        | inr (e, refused) ↦ absurd (ground (arith, h, refused))
        | inl (sd, found) ↦ (sd, found, ground (arith, h, found))
      ]
