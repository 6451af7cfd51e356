-- ===== src/Tf/Lifecycle/Calls.antt =====
-- What single calls of the broker do to the state of its providers, and with what a provider answers.
use cloud_service_broker.Prelude.{
  ◌≡◌, ◌⊎◌, inl, inr, Option-cases, ap, String, Bool, true, false, Option, none, some, arith,
}
use cloud_service_broker.Outcome.{Error, ok}
use cloud_service_broker.Models.{ServiceInstanceDetails, deprovision_operation_type}
use cloud_service_broker.VarContext.{VarContext}
use cloud_service_broker.Service.Provider.{ServiceProvider, DeprovisionDetails}
use cloud_service_broker.Broker.State.{ServiceBroker}
use cloud_service_broker.Broker.State
use cloud_service_broker.Broker.View.{instance_row}
use cloud_service_broker.Broker.Checks.{check_deprovision, check_last_operation}
use cloud_service_broker.Broker.Deprovision
use cloud_service_broker.Broker.Deprovision.{record_deprovision}
use cloud_service_broker.Broker.LastOperation
use cloud_service_broker.Broker.LastOperation.{last_operation, LastOperation}
use cloud_service_broker.Broker.LastOperation.Records.{last_operation_removes}

module _ {P K : Type 0} (b : ServiceBroker P K) where
  provider-record_deprovision :
      (id : String) (d : ServiceInstanceDetails) (op : Option String) (s : State.State b)
      → (record_deprovision b id d op s).1.provider ≡ s.provider
  unfolding record_deprovision
  provider-record_deprovision id d none s = ground arith
  provider-record_deprovision id d (some op) s = ground arith

  pub provider-deprovision :
      (id : String) (details : DeprovisionDetails) (async : Bool) (s : State.State b)
      (d : ServiceInstanceDetails) (helper : ServiceProvider P) (vars : VarContext)
      (op : Option String)
      → check_deprovision b id details async s ≡ ok (d, helper, vars)
      → (helper.deprovision d details vars s.provider).0 ≡ ok op
      → (Deprovision.deprovision b id details async s).1.provider
        ≡ (helper.deprovision d details vars s.provider).1
  unfolding Deprovision.deprovision
  provider-deprovision id details async s d helper vars op checked done = ground (
    arith,
    checked,
    done,
    provider-record_deprovision id d op
        (record s { provider = (helper.deprovision d details vars s.provider).1 }),
  )

module _ {P K : Type 0} (b : ServiceBroker P K) (sentinel : Error → String) where
  pub last_operation_not_done :
      (id : String) (s : State.State b) (d : ServiceInstanceDetails) (helper : ServiceProvider P)
      (text : String)
      → check_last_operation b id s ≡ ok (d, helper)
      → helper.poll_instance d s.provider ≡ (ok (false, text), s.provider)
      → last_operation b sentinel id s
        ≡ ((record { state = LastOperation.in_progress; description = text }, none), s)
  unfolding last_operation
  last_operation_not_done id s d helper text checked polled = ground (arith, checked, polled)

  last_operation_done :
      (id : String) (s : State.State b) (d : ServiceInstanceDetails) (helper : ServiceProvider P)
      (text : String)
      → check_last_operation b id s ≡ ok (d, helper)
      → (helper.poll_instance d s.provider).0 ≡ ok (true, text)
      → (last_operation b sentinel id s).0.0
        ≡ record { state = LastOperation.succeeded; description = text }
  unfolding last_operation
  last_operation_done id s d helper text checked polled = ground (arith, checked, polled)

  -- Such a poll of an instance that is being removed has removed it, unless it returns an error.
  pub removal_completes :
      (id : String) (s : State.State b) (d : ServiceInstanceDetails) (helper : ServiceProvider P)
      (text : String)
      → check_last_operation b id s ≡ ok (d, helper)
      → instance_row b id s ≡ some d
      → d.operation_type ≡ deprovision_operation_type
      → (helper.poll_instance d s.provider).0 ≡ ok (true, text)
      → ((last_operation b sentinel id s).0.0.state ≡ LastOperation.succeeded)
        × ((instance_row b id (last_operation b sentinel id s).1 ≡ none)
            ⊎ ((e : Error) × ((last_operation b sentinel id s).0.1 ≡ some e)))
  removal_completes id s d helper text checked row kind polled =
      let over = last_operation_done id s d helper text checked polled in
      (
        ap (λ o. o.state) over,
        elim (Option-cases (last_operation b sentinel id s).0.1) [
          | inl clean ↦
              inl (last_operation_removes b sentinel id s d text row kind (λ i. (over i, clean i)))
          | inr error ↦ inr error
        ],
      )
