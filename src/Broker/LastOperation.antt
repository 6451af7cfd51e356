-- ===== src/Broker/LastOperation.antt =====
-- `LastOperation` and `updateStateOnOperationCompletion`
pub mod Records
use cloud_service_broker.Prelude.{
  String, Bool, true, false, Option, none, some, ◌==◌, nat_eq, if◌then◌else◌,
}
use cloud_service_broker.Outcome.{Error, google_api, Result, ok, err, message}
use cloud_service_broker.Outcome.Exec.{Exec, query, ◌>>=◌, or_raise}
use cloud_service_broker.Models.{
  ServiceInstanceDetails, deprovision_operation_type, clear_operation_type,
}
use cloud_service_broker.Dao.Instances.{
  get_service_instance_details_by_id, save_service_instance_details,
  delete_service_instance_details_by_id,
}
use cloud_service_broker.Service.Provider.{ServiceProvider}
use cloud_service_broker.Broker.State.{ServiceBroker, State, on_instances, on_provider}
use cloud_service_broker.Broker.Checks.{check_last_operation, because}

-- `brokerapi.LastOperationState`; `blank` is its zero value.
pub data OperationState : Type 0 where
  blank in_progress succeeded failed : OperationState

pub record LastOperation : Type 0 where
  pub state : OperationState
  pub description : String

abbrev pub cleared : ServiceInstanceDetails → ServiceInstanceDetails
cleared details = record details { operation_id = ""; operation_type = clear_operation_type }

-- A `*googleapi.Error` with the code 503.
abbrev pub is_retryable : Error → Bool
is_retryable (google_api code _) = nat_eq code 503
is_retryable _ = false

abbrev pub failure : Result (Unit {0}) → Option Error
failure (ok _) = none
failure (err e) = some e

module _ {P K : Type 0} (b : ServiceBroker P K) where
  unfoldable pub delete_instance : String → Exec (State b) (Unit {0})
  delete_instance instance_id =
      or_raise (on_instances b (delete_service_instance_details_by_id b.instance_gorm instance_id))
        (because "Error deleting instance details from database: "
          ". WARNING: this instance will remain visible in cf. Contact your operator for cleanup")

  unfoldable pub finalize_instance : ServiceProvider P → String → Exec (State b) (Unit {0})
  finalize_instance service instance_id = do
    details ←
        or_raise
          (query (λ s. get_service_instance_details_by_id b.instance_gorm instance_id s.instances))
          (because "Error getting instance details from database " "")
    updated ←
        or_raise (on_provider b (service.update_instance_details details))
          (because "Error getting new instance details from GCP: " "")
    or_raise (on_instances b (save_service_instance_details b.instance_gorm (cleared updated)))
        (because "Error saving instance details to database " "")

  unfoldable pub update_state_on_operation_completion :
      ServiceProvider P → String → String → Exec (State b) (Unit {0})
  unfolding delete_instance finalize_instance
  update_state_on_operation_completion service last_operation_type instance_id =
      if last_operation_type == deprovision_operation_type
      then delete_instance instance_id
      else finalize_instance service instance_id

  -- The text of a sentinel error is the parameter.
  report_failure : (Error → String) → Error → LastOperation
  report_failure sentinel e = record {
    state = if is_retryable e then in_progress else failed;
    description = message sentinel e;
  }

  after_poll :
      ServiceInstanceDetails
      → ServiceProvider P
      → String
      → Bool × String
      → State b
      → (LastOperation × Option Error) × State b
  after_poll instance' service instance_id (false, text) s =
      ((record { state = in_progress; description = text }, none), s)
  after_poll instance' service instance_id (true, text) s =
      let (r, s') =
        update_state_on_operation_completion service instance'.operation_type instance_id s in
      ((record { state = succeeded; description = text }, failure r), s')

  -- The operation and the error that are returned, which may both be there.
  unfoldable pub last_operation :
      (Error → String) → String → State b → (LastOperation × Option Error) × State b
  unfolding report_failure after_poll
  last_operation sentinel instance_id s = elim (check_last_operation b instance_id s) [
    | err e ↦ ((record { state = blank; description = "" }, some e), s)
    | ok (instance', service) ↦
        (let (polled, s') = on_provider b (service.poll_instance instance') s in
          elim polled [
            | err e ↦ ((report_failure sentinel e, none), s')
            | ok answer ↦ after_poll instance' service instance_id answer s'
          ])
  ]
