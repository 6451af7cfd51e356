-- ===== src/Service/Provider.antt =====
-- pkg/broker/service_provider.go: what the broker asks of a back end, on the back end's own state.
use cloud_service_broker.Prelude.{String, Bool, Option}
use cloud_service_broker.Outcome.Exec.{Exec}
use cloud_service_broker.Json.{Object}
use cloud_service_broker.Models.{ServiceInstanceDetails, ServiceBindingCredentials}
use cloud_service_broker.VarContext.{VarContext}

pub record DeprovisionDetails : Type 0 where
  pub service_id : String
  pub plan_id : String

pub record ServiceProvider (P : Type 0) : Type 0 where
  pub provision : VarContext → Exec P ServiceInstanceDetails
  pub update : VarContext → Exec P ServiceInstanceDetails
  pub bind : VarContext → Exec P Object
  -- the credentials of the `brokerapi.Binding`
  pub build_instance_credentials :
      ServiceBindingCredentials → ServiceInstanceDetails → Exec P Object
  pub unbind : ServiceInstanceDetails → ServiceBindingCredentials → VarContext → Exec P (Unit {0})
  -- the operation's id, or none if the instance is gone at once
  pub deprovision :
      ServiceInstanceDetails → DeprovisionDetails → VarContext → Exec P (Option String)
  -- whether the operation is done, and its message
  pub poll_instance : ServiceInstanceDetails → Exec P (Bool × String)
  pub provisions_async : Bool
  pub deprovisions_async : Bool
  -- the details as the provider has changed them in place
  pub update_instance_details : ServiceInstanceDetails → Exec P ServiceInstanceDetails
