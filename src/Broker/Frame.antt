-- ===== src/Broker/Frame.antt =====
-- Which instances a call may change.
use cloud_service_broker.Prelude.{
  ◌≡◌, ap, inl, inr, String, Bool, true, false, none, some, arith, ◌==◌, Bool-cases,
}
use cloud_service_broker.Outcome.{Error, Result-cases}
use cloud_service_broker.Models.{deprovision_operation_type}
use cloud_service_broker.Gorm.Keyed.{
  row_at, row_at-create_ne, row_at-save_ne, row_at-delete_ne, key-row_at,
}
use cloud_service_broker.Dao.Instances.{
  instance_key, create_service_instance_details, save_service_instance_details,
  delete_service_instance_details_by_id, get_service_instance_details_by_id,
}
use cloud_service_broker.Service.Provider.{ServiceProvider, DeprovisionDetails}
use cloud_service_broker.Service.Variables.{ProvisionDetails, UpdateDetails, BindDetails}
use cloud_service_broker.Broker.State.{ServiceBroker, State}
use cloud_service_broker.Broker.View.{instance_row}
use cloud_service_broker.Broker.Checks.{
  UnbindDetails, check_provision, check_deprovision, check_update, check_last_operation,
}
use cloud_service_broker.Broker.Provision.{provision, record_instance, identified}
use cloud_service_broker.Broker.Deprovision.{deprovision, record_deprovision, deprovisioning}
use cloud_service_broker.Broker.Deprovision.Records.{check_deprovision_row}
use cloud_service_broker.Broker.Bind.{bind, store_credentials}
use cloud_service_broker.Broker.Unbind.{unbind, remove_credentials}
use cloud_service_broker.Broker.Update.{update, save_plan}
use cloud_service_broker.Broker.Update.Records.{check_update_row}
use cloud_service_broker.Broker.LastOperation.{
  last_operation, update_state_on_operation_completion, cleared,
}
use cloud_service_broker.Broker.Reachable.{
  Step, provisioned, deprovisioned, bound, unbound, updated, polled,
}

module _ {P K : Type 0} (b : ServiceBroker P K) (sentinel : Error → String) where
  -- Every instance but one has the row that it had.
  abbrev pub IsChangedAt : String → State b → State b → Type 0
  IsChangedAt id s t = (j : String) → (id == j) ≡ false → instance_row b j t ≡ instance_row b j s

  provision-IsChangedAt :
      (id : String) (details : ProvisionDetails) (async : Bool) (s : State b)
      → IsChangedAt id s (provision b id details async s).1
  unfolding provision record_instance create_service_instance_details
  provision-IsChangedAt id details async s j ne =
      elim (Result-cases (check_provision b id details async s)) [
        | inr (e, refused) ↦ ground (arith, refused)
        | inl ((helper, vars), checked) ↦ elim (Result-cases (helper.provision vars s.provider).0) [
          | inr (e, refused) ↦ ground (arith, checked, refused)
          | inl (d, made) ↦ ground (
            arith,
            checked,
            made,
            row_at-create_ne instance_key b.instance_gorm j (identified id details d) s.instances
                ne,
          )
        ]
      ]

  deprovision-IsChangedAt :
      (id : String) (details : DeprovisionDetails) (async : Bool) (s : State b)
      → IsChangedAt id s (deprovision b id details async s).1
  unfolding deprovision record_deprovision save_service_instance_details
      delete_service_instance_details_by_id
  deprovision-IsChangedAt id details async s j ne =
      elim (Result-cases (check_deprovision b id details async s)) [
        | inr (e, refused) ↦ ground (arith, refused)
        | inl ((d, helper, vars), checked) ↦
            (let row = check_deprovision_row b id details async s (d, helper, vars) checked in
              let own = key-row_at instance_key b.instance_gorm id s.instances d row in
              elim (Result-cases (helper.deprovision d details vars s.provider).0) [
                | inr (e, refused) ↦ ground (arith, checked, refused)
                | inl (none, named) ↦ ground (
                  arith,
                  checked,
                  named,
                  row_at-delete_ne instance_key b.instance_gorm j id s.instances ne,
                )
                | inl (some op, named) ↦ ground (
                  arith,
                  checked,
                  named,
                  row_at-save_ne instance_key b.instance_gorm j (deprovisioning d op) s.instances
                      (rw own ne),
                )
              ])
      ]

  update-IsChangedAt :
      (id : String) (details : UpdateDetails) (async : Bool) (s : State b)
      → IsChangedAt id s (update b id details async s).1
  unfolding update save_plan save_service_instance_details
  update-IsChangedAt id details async s j ne =
      elim (Result-cases (check_update b id details async s)) [
        | inr (e, refused) ↦ ground (arith, refused)
        | inl ((d, helper, vars), checked) ↦
            (let row = check_update_row b id details async s (d, helper, vars) checked in
              let own = key-row_at instance_key b.instance_gorm id s.instances d row in
              elim (Result-cases (helper.update vars s.provider).0) [
                | inr (e, refused) ↦ ground (arith, checked, refused)
                | inl (new, done) ↦ ground (
                  arith,
                  checked,
                  done,
                  row_at-save_ne instance_key b.instance_gorm j (record d { plan_id = new.plan_id })
                      s.instances (rw own ne),
                )
              ])
      ]

  pub instances-bind :
      (id binding_id : String) (details : BindDetails) (s : State b)
      → (bind b id binding_id details s).1.instances ≡ s.instances
  unfolding bind store_credentials
  instances-bind id binding_id details s = ground arith

  pub instances-unbind :
      (id binding_id : String) (details : UnbindDetails) (s : State b)
      → (unbind b id binding_id details s).1.instances ≡ s.instances
  unfolding unbind remove_credentials
  instances-unbind id binding_id details s = ground arith

  update_state_on_operation_completion-IsChangedAt :
      (service : ServiceProvider P) (operation_type id : String) (s : State b)
      → (changed : String) × IsChangedAt changed s
          (update_state_on_operation_completion b service operation_type id s).1
  unfolding update_state_on_operation_completion save_service_instance_details
      delete_service_instance_details_by_id
  update_state_on_operation_completion-IsChangedAt service operation_type id s =
      elim (Bool-cases (operation_type == deprovision_operation_type)) [
        | inl removal ↦ (
          id,
          λ j ne.
              ground
                (arith, removal, row_at-delete_ne instance_key b.instance_gorm j id s.instances ne),
        )
        | inr other ↦
            elim (Result-cases
              (get_service_instance_details_by_id b.instance_gorm id s.instances)) [
                | inr (e, refused) ↦ (id, λ j ne. ground (arith, other, refused))
                | inl (d, found) ↦
                    elim (Result-cases (service.update_instance_details d s.provider).0) [
                      | inr (e, refused) ↦ (id, λ j ne. ground (arith, other, found, refused))
                      | inl (new, made) ↦ (
                        new.id,
                        λ j ne. ground (
                          arith,
                          other,
                          found,
                          made,
                          row_at-save_ne instance_key b.instance_gorm j (cleared new) s.instances
                              ne,
                        ),
                      )
                    ]
              ]
      ]

  last_operation-IsChangedAt :
      (id : String) (s : State b)
      → (changed : String) × IsChangedAt changed s (last_operation b sentinel id s).1
  unfolding last_operation
  last_operation-IsChangedAt id s = elim (Result-cases (check_last_operation b id s)) [
    | inr (e, refused) ↦ (id, λ j ne. ground (arith, refused))
    | inl ((d, service), checked) ↦
        (let polling = service.poll_instance d s.provider in
          elim (Result-cases polling.0) [
            | inr (e, refused) ↦ (id, λ j ne. ground (arith, checked, refused))
            | inl ((false, text), answered) ↦ (id, λ j ne. ground (arith, checked, answered))
            | inl ((true, text), answered) ↦
                (let (changed, rows) =
                    update_state_on_operation_completion-IsChangedAt service d.operation_type id
                      (record s { provider = polling.1 }) in
                  (changed, λ j ne. ground (arith, checked, answered, rows j ne)))
          ])
  ]

  -- Each call of the broker, whether it returns or fails, changes the row of at most one instance.
  pub step-IsChangedAt : (s t : State b) → Step b sentinel s t → (id : String) × IsChangedAt id s t
  step-IsChangedAt _ _ (provisioned id details async s) =
      (id, provision-IsChangedAt id details async s)
  step-IsChangedAt _ _ (deprovisioned id details async s) =
      (id, deprovision-IsChangedAt id details async s)
  step-IsChangedAt _ _ (bound id binding_id details s) = (
    id,
    λ j ne. ap (row_at instance_key b.instance_gorm j) (instances-bind id binding_id details s),
  )
  step-IsChangedAt _ _ (unbound id binding_id details s) = (
    id,
    λ j ne. ap (row_at instance_key b.instance_gorm j) (instances-unbind id binding_id details s),
  )
  step-IsChangedAt _ _ (updated id details async s) = (id, update-IsChangedAt id details async s)
  step-IsChangedAt _ _ (polled id s) = last_operation-IsChangedAt id s
