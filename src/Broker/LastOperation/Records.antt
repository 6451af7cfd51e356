-- ===== src/Broker/LastOperation/Records.antt =====
-- What polling an operation reports, and what it leaves in the table of instances.
use cloud_service_broker.Prelude.{
  ◌≡◌, ◌≢◌, inl, inr, String, false, none, some, arith, ◌==◌, eq_refl, eq_iff, if◌then◌else◌,
}
use cloud_service_broker.Outcome.{Error, ok, Result-cases}
use cloud_service_broker.Models.{ServiceInstanceDetails, deprovision_operation_type}
use cloud_service_broker.Gorm.Keyed.{row_at-save, row_at-delete, has_key}
use cloud_service_broker.Dao.Instances.{
  instance_key, save_service_instance_details, get_service_instance_details_by_id,
  delete_service_instance_details_by_id,
}
use cloud_service_broker.Service.Provider.{ServiceProvider}
use cloud_service_broker.Broker.State.{ServiceBroker, State}
use cloud_service_broker.Broker.View.{instance_row}
use cloud_service_broker.Broker.Checks.{check_last_operation}
use cloud_service_broker.Broker.LastOperation.{
  succeeded, cleared, update_state_on_operation_completion, last_operation,
}

module _ {P K : Type 0} (b : ServiceBroker P K) (sentinel : Error → String) where
  pub check_last_operation_row :
      (id : String) (s : State b) (out : ServiceInstanceDetails × ServiceProvider P)
      → check_last_operation b id s ≡ ok out
      → instance_row b id s ≡ some out.0
  unfolding check_last_operation get_service_instance_details_by_id
  check_last_operation_row id s out h =
      ground (arith, b.instance_gorm.first_ok (has_key instance_key id) s.instances out.0)

  -- Unless the operation has succeeded, polling it changes no table.
  pub last_operation_pending :
      (id : String) (s : State b)
      → (last_operation b sentinel id s).0.0.state ≢ succeeded
      → let s' = (last_operation b sentinel id s).1 in
        (s'.instances ≡ s.instances) × (s'.bindings ≡ s.bindings) × (s'.requests ≡ s.requests)
  unfolding last_operation
  last_operation_pending id s h = ground arith

  -- When a removal is reported as succeeded with no error, the instance is gone.
  pub last_operation_removes :
      (id : String) (s : State b) (d : ServiceInstanceDetails) (text : String)
      → instance_row b id s ≡ some d
      → d.operation_type ≡ deprovision_operation_type
      → (last_operation b sentinel id s).0
        ≡ (record { state = succeeded; description = text }, none)
      → instance_row b id (last_operation b sentinel id s).1 ≡ none
  unfolding last_operation update_state_on_operation_completion
      delete_service_instance_details_by_id
  last_operation_removes id s d text row kind h =
      elim (Result-cases (check_last_operation b id s)) [
        | inr (e, refused) ↦ absurd (ground (arith, h, refused))
        | inl ((i, helper), checked) ↦ ground (
          arith,
          h,
          checked,
          row,
          (eq_iff d.operation_type deprovision_operation_type).1 kind,
          check_last_operation_row id s (i, helper) checked,
          row_at-delete instance_key b.instance_gorm id id s.instances,
          eq_refl id,
        )
      ]

  -- When another operation is reported as succeeded with no error, the row has the details that the
  -- instance's provider has given after it was polled, with a blank operation id and type: it is the
  -- row of the id in those details, and the row of the polled id stays as it was if that is another.
  pub last_operation_clears :
      (id : String) (s : State b) (d : ServiceInstanceDetails) (text : String)
      → instance_row b id s ≡ some d
      → (d.operation_type == deprovision_operation_type) ≡ false
      → (last_operation b sentinel id s).0
        ≡ (record { state = succeeded; description = text }, none)
      → (helper : ServiceProvider P) × (new : ServiceInstanceDetails) × (check_last_operation b id s
          ≡ ok (d, helper))
        × ((helper.update_instance_details d (helper.poll_instance d s.provider).1).0 ≡ ok new)
        × (instance_row b new.id (last_operation b sentinel id s).1
            ≡ some (record new { operation_id = ""; operation_type = "" }))
        × (instance_row b id (last_operation b sentinel id s).1 ≡ (
            if new.id == id
            then some (record new { operation_id = ""; operation_type = "" })
            else some d))
  unfolding last_operation update_state_on_operation_completion save_service_instance_details
      get_service_instance_details_by_id
  last_operation_clears id s d text row kind h = elim (Result-cases (check_last_operation b id s)) [
    | inr (e, refused) ↦ absurd (ground (arith, h, refused))
    | inl ((i, helper), checked) ↦
        (let p = (helper.poll_instance i s.provider).1 in
          let found = check_last_operation_row id s (i, helper) checked in
          elim (Result-cases (get_service_instance_details_by_id b.instance_gorm id s.instances)) [
            | inr (e, refused) ↦ absurd (ground (arith, h, checked, row, kind, found, refused))
            | inl (j, again) ↦
                (let same =
                    b.instance_gorm.first_ok (has_key instance_key id) s.instances j again in
                  elim (Result-cases (helper.update_instance_details j p).0) [
                    | inr (e, refused) ↦
                        absurd (ground (arith, h, checked, row, kind, found, again, refused))
                    | inl (new, updated) ↦ (
                      helper,
                      new,
                      ground (arith, row, found, checked),
                      ground (arith, row, found, same, updated),
                      ground (
                        arith,
                        h,
                        checked,
                        row,
                        kind,
                        found,
                        again,
                        updated,
                        row_at-save instance_key b.instance_gorm new.id (cleared new) s.instances,
                        eq_refl new.id,
                      ),
                      ground (
                        arith,
                        h,
                        checked,
                        row,
                        kind,
                        found,
                        again,
                        updated,
                        row_at-save instance_key b.instance_gorm id (cleared new) s.instances,
                      ),
                    )
                  ])
          ])
  ]
