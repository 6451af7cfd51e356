-- ===== src/Broker/Update/Records.antt =====
-- What an update call leaves in the table of instances.
use mathlib.Core.List.{Memᴰ}
use cloud_service_broker.Prelude.{
  ◌≡◌, ◌≢◌, inl, inr, String, Bool, true, false, some, arith, eq_iff, is_some, ◌==◌,
}
use cloud_service_broker.Outcome.{Error, ok, err, Result-cases}
use cloud_service_broker.Models.{ServiceInstanceDetails}
use cloud_service_broker.Gorm.Keyed.{row_at-save, row_at-save_failed, key-row_at, has_key}
use cloud_service_broker.Dao.Instances.{
  instance_key, save_service_instance_details, get_service_instance_details_by_id,
}
use cloud_service_broker.Service.Provider.{ServiceProvider}
use cloud_service_broker.Service.Definition.{ServiceDefinition}
use cloud_service_broker.Service.Variables.{UpdateDetails, allowed_update}
use cloud_service_broker.VarContext.{VarContext}
use cloud_service_broker.Service.Prohibited.{allowed_update_prohibited}
use cloud_service_broker.Service.Schema.{BrokerVariable}
use cloud_service_broker.Prelude.StringMap.{lookup}
use cloud_service_broker.Registry.{get_service_by_id}
use cloud_service_broker.Broker.State.{ServiceBroker, State}
use cloud_service_broker.Broker.View.{instance_row}
use cloud_service_broker.Broker.Checks.{check_update}
use cloud_service_broker.Broker.Update.{UpdateServiceSpec, save_plan, update}

module _ {P K : Type 0} (b : ServiceBroker P K) where
  pub check_update_row :
      (id : String) (details : UpdateDetails) (async : Bool) (s : State b)
      (out : ServiceInstanceDetails × ServiceProvider P × VarContext)
      → check_update b id details async s ≡ ok out
      → instance_row b id s ≡ some out.0
  unfolding check_update get_service_instance_details_by_id
  check_update_row id details async s out h =
      ground (arith, b.instance_gorm.first_ok (has_key instance_key id) s.instances out.0)

  -- An update call that returns has passed its checks; it changes the instance's plan to that of the
  -- details that the provider has returned, and nothing else of the row, and answers the provider's
  -- operation.
  pub update_records :
      (id : String) (details : UpdateDetails) (async : Bool) (s : State b)
      (spec : UpdateServiceSpec)
      → (update b id details async s).0 ≡ ok spec
      → (d new : ServiceInstanceDetails) × (helper : ServiceProvider P) × (vars : VarContext)
        × (check_update b id details async s ≡ ok (d, helper, vars))
        × ((helper.update vars s.provider).0 ≡ ok new)
        × (instance_row b id s ≡ some d)
        × (instance_row b id (update b id details async s).1
            ≡ some (record d { plan_id = new.plan_id }))
        × (spec.operation_data ≡ new.operation_id)
  unfolding update save_plan save_service_instance_details
  update_records id details async s spec h =
      elim (Result-cases (check_update b id details async s)) [
        | inr (e, failed) ↦ absurd (ground (arith, h, failed))
        | inl ((d, helper, vars), checked) ↦ elim (Result-cases (helper.update vars s.provider).0) [
          | inr (e, failed) ↦ absurd (ground (arith, h, checked, failed))
          | inl (new, done) ↦
              (let row = check_update_row id details async s (d, helper, vars) checked in
                (
                  d,
                  new,
                  helper,
                  vars,
                  checked,
                  done,
                  row,
                  ground (
                    arith,
                    h,
                    checked,
                    done,
                    row_at-save instance_key b.instance_gorm id (record d { plan_id = new.plan_id })
                        s.instances,
                    (eq_iff d.id id).1
                        (key-row_at instance_key b.instance_gorm id s.instances d row),
                  ),
                  ground (arith, h, checked, done),
                ))
        ]
      ]

  -- An update call that fails leaves every instance as it was.
  pub update_failed :
      (id j : String) (details : UpdateDetails) (async : Bool) (s : State b) (e : Error)
      → (update b id details async s).0 ≡ err e
      → instance_row b j (update b id details async s).1 ≡ instance_row b j s
  unfolding update save_plan save_service_instance_details
  update_failed id j details async s e h = elim (Result-cases (check_update b id details async s)) [
    | inr (x, failed) ↦ ground (arith, failed)
    | inl ((d, helper, vars), checked) ↦ elim (Result-cases (helper.update vars s.provider).0) [
      | inr (x, failed) ↦ ground (arith, checked, failed)
      | inl (new, done) ↦ ground (
        arith,
        h,
        checked,
        done,
        row_at-save_failed instance_key b.instance_gorm j (record d { plan_id = new.plan_id })
            s.instances,
      )
    ]
  ]

  check_update_allowed :
      (id : String) (details : UpdateDetails) (async : Bool) (s : State b)
      (out : ServiceInstanceDetails × ServiceProvider P × VarContext) (svc : ServiceDefinition P)
      → check_update b id details async s ≡ ok out
      → get_service_by_id b.registry out.0.service_id ≡ ok svc
      → allowed_update b.externals svc details ≡ ok true
  unfolding check_update
  check_update_allowed id details async s out svc h known = ground arith

  -- An update of an instance with parameters that are not blank, and that set the field of any one of
  -- its service's input variables that prohibits updates, does not return, and changes nothing, the state
  -- of the providers included.
  pub update_prohibited :
      (id : String) (details : UpdateDetails) (async : Bool) (s : State b)
      (d : ServiceInstanceDetails) (svc : ServiceDefinition P) (v : BrokerVariable)
      (spec : UpdateServiceSpec)
      → instance_row b id s ≡ some d
      → get_service_by_id b.registry d.service_id ≡ ok svc
      → Memᴰ v svc.provision_input_variables
      → v.prohibit_update ≡ true
      → (details.raw_parameters == "") ≡ false
      → is_some (lookup v.field_name (b.externals.unmarshal_object details.raw_parameters).0) ≡ true
      → ((update b id details async s).1 ≡ s) × ((update b id details async s).0 ≢ ok spec)
  unfolding update
  update_prohibited id details async s d svc v spec row known i banned given set =
      elim (Result-cases (check_update b id details async s)) [
        | inr (x, failed) ↦ (ground (arith, failed), λ h. ground (arith, failed, h))
        | inl (out, checked) ↦ absurd (
            ground (
              arith,
              row,
              known,
              check_update_row id details async s out checked,
              check_update_allowed id details async s out svc checked,
              allowed_update_prohibited b.externals svc details v given i banned set,
            ))
      ]
