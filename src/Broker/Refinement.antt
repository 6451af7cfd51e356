-- ===== src/Broker/Refinement.antt =====
-- The broker as a ledger from instance ids to services: what a platform may rely on, whichever calls are
-- made and whichever of them fail.
use cloud_service_broker.Prelude.{
  ◌≡◌, refl, inl, inr, String, Bool, true, false, none, some, arith, ◌==◌, Bool-cases,
}
use cloud_service_broker.Outcome.{Error, ok, Result-cases}
use cloud_service_broker.Models.{ServiceInstanceDetails, deprovision_operation_type}
use cloud_service_broker.Gorm.Keyed.{has_key}
use cloud_service_broker.Dao.Instances.{
  instance_key, create_service_instance_details, save_service_instance_details,
  delete_service_instance_details_by_id, get_service_instance_details_by_id,
}
use cloud_service_broker.Service.Provider.{ServiceProvider, DeprovisionDetails}
use cloud_service_broker.Service.Definition.{ServiceDefinition}
use cloud_service_broker.Service.Variables.{ProvisionDetails, UpdateDetails}
use cloud_service_broker.Registry.{get_service_by_id}
use cloud_service_broker.Broker.State.{ServiceBroker, State}
use cloud_service_broker.Broker.View.{instance_row}
use cloud_service_broker.Broker.Checks.{
  check_provision, check_deprovision, check_update, check_last_operation,
}
use cloud_service_broker.Broker.Checks.Providers.{check_last_operation_provider}
use cloud_service_broker.Broker.Provision.{provision, record_instance, identified}
use cloud_service_broker.Broker.Provision.Records.{check_provision_fresh}
use cloud_service_broker.Broker.Deprovision.{deprovision, record_deprovision, deprovisioning}
use cloud_service_broker.Broker.Deprovision.Records.{check_deprovision_row}
use cloud_service_broker.Broker.Update.{update, save_plan}
use cloud_service_broker.Broker.Update.Records.{check_update_row}
use cloud_service_broker.Broker.LastOperation.{
  last_operation, update_state_on_operation_completion, cleared,
}
use cloud_service_broker.Broker.Frame.{instances-bind, instances-unbind}
use cloud_service_broker.Broker.Reachable.{
  Step, provisioned, deprovisioned, bound, unbound, updated, polled,
}
use cloud_service_broker.Broker.Ledger.{
  Ledger, Change, idle, service_of, create-Change, save-Change, delete-Change, leaving,
}

-- The details that a provider gives back for an instance are still those of the instance.
abbrev pub KeepsIdentity : {P : Type 0} → ServiceProvider P → Type 0
KeepsIdentity {P} helper =
    (d new : ServiceInstanceDetails) (p : P)
    → (helper.update_instance_details d p).0 ≡ ok new
    → (new.id ≡ d.id) × (new.service_id ≡ d.service_id)

module _ {P K : Type 0} (b : ServiceBroker P K) where
  abbrev pub ledger : State b → Ledger
  ledger s j = service_of (instance_row b j s)

  provision-Change :
      (id : String) (details : ProvisionDetails) (async : Bool) (s : State b)
      → Change (ledger s) (ledger (provision b id details async s).1)
  unfolding provision record_instance create_service_instance_details
  provision-Change id details async s = elim (Result-cases (check_provision b id details async s)) [
    | inr (e, refused) ↦ idle (λ j. ground (arith, refused))
    | inl ((helper, vars), checked) ↦ elim (Result-cases (helper.provision vars s.provider).0) [
      | inr (e, refused) ↦ idle (λ j. ground (arith, checked, refused))
      | inl (d, made) ↦
          (let fresh = check_provision_fresh b id details async s (helper, vars) checked in
            let left : (provision b id details async s).1.instances
                ≡ (b.instance_gorm.create (identified id details d) s.instances).1 =
              ground (arith, checked, made) in
            leaving b.instance_gorm s.instances left
              (create-Change b.instance_gorm (identified id details d) s.instances fresh))
    ]
  ]

  deprovision-Change :
      (id : String) (details : DeprovisionDetails) (async : Bool) (s : State b)
      → Change (ledger s) (ledger (deprovision b id details async s).1)
  unfolding deprovision record_deprovision save_service_instance_details
      delete_service_instance_details_by_id
  deprovision-Change id details async s =
      elim (Result-cases (check_deprovision b id details async s)) [
        | inr (e, refused) ↦ idle (λ j. ground (arith, refused))
        | inl ((d, helper, vars), checked) ↦
            (let row = check_deprovision_row b id details async s (d, helper, vars) checked in
              elim (Result-cases (helper.deprovision d details vars s.provider).0) [
                | inr (e, refused) ↦ idle (λ j. ground (arith, checked, refused))
                | inl (none, named) ↦
                    (let left : (deprovision b id details async s).1.instances
                          ≡ (b.instance_gorm.delete (has_key instance_key id) s.instances).1 =
                        ground (arith, checked, named) in
                      leaving b.instance_gorm s.instances left
                        (delete-Change b.instance_gorm id s.instances))
                | inl (some op, named) ↦
                    (let left : (deprovision b id details async s).1.instances
                          ≡ (b.instance_gorm.save (deprovisioning d op) s.instances).1 =
                        ground (arith, checked, named) in
                      leaving b.instance_gorm s.instances left (
                        save-Change b.instance_gorm d (deprovisioning d op) id s.instances row refl
                          refl))
              ])
      ]

  update-Change :
      (id : String) (details : UpdateDetails) (async : Bool) (s : State b)
      → Change (ledger s) (ledger (update b id details async s).1)
  unfolding update save_plan save_service_instance_details
  update-Change id details async s = elim (Result-cases (check_update b id details async s)) [
    | inr (e, refused) ↦ idle (λ j. ground (arith, refused))
    | inl ((d, helper, vars), checked) ↦
        (let row = check_update_row b id details async s (d, helper, vars) checked in
          elim (Result-cases (helper.update vars s.provider).0) [
            | inr (e, refused) ↦ idle (λ j. ground (arith, checked, refused))
            | inl (new, done) ↦
                (let left : (update b id details async s).1.instances
                      ≡ (b.instance_gorm.save (record d { plan_id = new.plan_id }) s.instances).1 =
                    ground (arith, checked, done) in
                  leaving b.instance_gorm s.instances left (
                    save-Change b.instance_gorm d (record d { plan_id = new.plan_id }) id
                      s.instances row refl refl))
          ])
  ]

  completion-Change :
      (service : ServiceProvider P) (operation_type id : String) (s : State b)
      → KeepsIdentity service
      → Change
          (ledger s)
          (ledger (update_state_on_operation_completion b service operation_type id s).1)
  unfolding update_state_on_operation_completion save_service_instance_details
      delete_service_instance_details_by_id get_service_instance_details_by_id
  completion-Change service operation_type id s keeps =
      elim (Bool-cases (operation_type == deprovision_operation_type)) [
        | inl removal ↦
            (let left : (update_state_on_operation_completion b service operation_type id
                    s).1.instances
                  ≡ (b.instance_gorm.delete (has_key instance_key id) s.instances).1 =
                ground (arith, removal) in
              leaving b.instance_gorm s.instances left
                (delete-Change b.instance_gorm id s.instances))
        | inr other ↦
            elim (Result-cases (b.instance_gorm.first (has_key instance_key id) s.instances)) [
              | inr (e, refused) ↦ idle (λ j. ground (arith, other, refused))
              | inl (d, found) ↦
                  elim (Result-cases (service.update_instance_details d s.provider).0) [
                    | inr (e, refused) ↦ idle (λ j. ground (arith, other, found, refused))
                    | inl (new, made) ↦
                        (let left : (update_state_on_operation_completion b service operation_type
                                id s).1.instances
                              ≡ (b.instance_gorm.save (cleared new) s.instances).1 =
                            ground (arith, other, found, made) in
                          let row =
                            b.instance_gorm.first_ok (has_key instance_key id) s.instances d
                              found in
                          let (own, same) = keeps d new s.provider made in
                          leaving b.instance_gorm s.instances left (
                            save-Change b.instance_gorm d (cleared new) id s.instances row own
                              same))
                  ]
            ]
      ]

  last_operation-Change :
      (sentinel : Error → String) (id : String) (s : State b)
      → ((sid : String) (sd : ServiceDefinition P)
          → get_service_by_id b.registry sid ≡ ok sd
          → KeepsIdentity sd.provider)
      → Change (ledger s) (ledger (last_operation b sentinel id s).1)
  unfolding last_operation
  last_operation-Change sentinel id s keeps = elim (Result-cases (check_last_operation b id s)) [
    | inr (e, refused) ↦ idle (λ j. ground (arith, refused))
    | inl ((d, helper), checked) ↦
        (let t = record s { provider = (helper.poll_instance d s.provider).1 } in
          let (sd, found, own) = check_last_operation_provider b id s (d, helper) checked in
          elim (Result-cases (helper.poll_instance d s.provider).0) [
            | inr (e, refused) ↦ idle (λ j. ground (arith, checked, refused))
            | inl ((false, text), answer) ↦ idle (λ j. ground (arith, checked, answer))
            | inl ((true, text), answer) ↦
                (let left : (last_operation b sentinel id s).1.instances
                      ≡ (update_state_on_operation_completion b helper d.operation_type id
                          t).1.instances =
                    ground (arith, checked, answer) in
                  leaving b.instance_gorm s.instances left (
                    completion-Change helper d.operation_type id t
                      (rw own (keeps d.service_id sd found))))
          ])
  ]

  -- Provided that no provider of a service of the registry, when it updates the details of an instance,
  -- changes their id or their service, every call of the broker, whether it returns or fails, is a step
  -- of the ledger from ids to services: it changes nothing, adds an instance under an id that was free,
  -- or removes one, so it changes the service of no instance.
  pub step_refines :
      (sentinel : Error → String) (s t : State b)
      → ((sid : String) (sd : ServiceDefinition P)
          → get_service_by_id b.registry sid ≡ ok sd
          → KeepsIdentity sd.provider)
      → Step b sentinel s t
      → Change (ledger s) (ledger t)
  step_refines sentinel _ _ keeps (provisioned id details async s) =
      provision-Change id details async s
  step_refines sentinel _ _ keeps (deprovisioned id details async s) =
      deprovision-Change id details async s
  step_refines sentinel _ _ keeps (bound id binding_id details s) =
      leaving b.instance_gorm s.instances (instances-bind b sentinel id binding_id details s)
        (idle (λ j. refl))
  step_refines sentinel _ _ keeps (unbound id binding_id details s) =
      leaving b.instance_gorm s.instances (instances-unbind b sentinel id binding_id details s)
        (idle (λ j. refl))
  step_refines sentinel _ _ keeps (updated id details async s) = update-Change id details async s
  step_refines sentinel _ _ keeps (polled id s) = last_operation-Change sentinel id s keeps
