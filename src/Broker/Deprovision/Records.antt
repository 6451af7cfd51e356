-- ===== src/Broker/Deprovision/Records.antt =====
-- What a deprovision call leaves in the table of instances.
use cloud_service_broker.Prelude.{
  ◌≡◌, inl, inr, String, Bool, true, false, none, some, arith, eq_refl, eq_iff, Option, is_some,
}
use cloud_service_broker.Outcome.{Error, ok, err, Result-cases, is_ok}
use cloud_service_broker.Models.{ServiceInstanceDetails}
use cloud_service_broker.Gorm.Keyed.{
  row_at-save, row_at-delete, row_at-save_failed, row_at-delete_failed, key-row_at, has_key,
}
use cloud_service_broker.Dao.Instances.{
  instance_key, save_service_instance_details, delete_service_instance_details_by_id,
  get_service_instance_details_by_id,
}
use cloud_service_broker.Service.Provider.{ServiceProvider, DeprovisionDetails}
use cloud_service_broker.VarContext.{VarContext}
use cloud_service_broker.Broker.State.{ServiceBroker, State}
use cloud_service_broker.Broker.View.{instance_row}
use cloud_service_broker.Broker.Checks.{check_deprovision}
use cloud_service_broker.Broker.Deprovision.{
  DeprovisionServiceSpec, deprovisioning, record_deprovision, deprovision,
}

-- The row of an instance after a deprovision call that has returned.
abbrev pub row_after : Bool → ServiceInstanceDetails → String → Option ServiceInstanceDetails
row_after false instance' operation_id = none
row_after true instance' operation_id =
    some (record instance' { operation_type = "deprovision"; operation_id = operation_id })

-- The operation that a provider names, blank if there is none.
abbrev pub named : Option String → String
named none = ""
named (some operation_id) = operation_id

module _ {P K : Type 0} (b : ServiceBroker P K) where
  pub check_deprovision_row :
      (id : String) (details : DeprovisionDetails) (async : Bool) (s : State b)
      (out : ServiceInstanceDetails × ServiceProvider P × VarContext)
      → check_deprovision b id details async s ≡ ok out
      → instance_row b id s ≡ some out.0
  unfolding check_deprovision get_service_instance_details_by_id
  check_deprovision_row id details async s out h =
      ground (arith, b.instance_gorm.first_ok (has_key instance_key id) s.instances out.0)

  record_deprovision_row :
      (id : String) (instance' : ServiceInstanceDetails) (operation : Option String) (s : State b)
      (spec : DeprovisionServiceSpec)
      → instance'.id ≡ id
      → (record_deprovision b id instance' operation s).0 ≡ ok spec
      → instance_row b id (record_deprovision b id instance' operation s).1
        ≡ row_after spec.is_async instance' spec.operation_data
  unfolding record_deprovision save_service_instance_details delete_service_instance_details_by_id
  record_deprovision_row id instance' none s spec own h =
      ground (arith, row_at-delete instance_key b.instance_gorm id id s.instances, eq_refl id)
  record_deprovision_row id instance' (some op) s spec own h = ground (
    arith,
    row_at-save instance_key b.instance_gorm id (deprovisioning instance' op) s.instances,
    eq_iff instance'.id id,
  )

  operation_data-record_deprovision :
      (id : String) (instance' : ServiceInstanceDetails) (operation : Option String) (s : State b)
      (spec : DeprovisionServiceSpec)
      → (record_deprovision b id instance' operation s).0 ≡ ok spec
      → spec.operation_data ≡ named operation
  unfolding record_deprovision
  operation_data-record_deprovision id instance' none s spec h = ground arith
  operation_data-record_deprovision id instance' (some op) s spec h = ground arith

  async-record_deprovision :
      (id : String) (instance' : ServiceInstanceDetails) (operation : Option String) (s : State b)
      (spec : DeprovisionServiceSpec)
      → (record_deprovision b id instance' operation s).0 ≡ ok spec
      → spec.is_async ≡ is_some operation
  unfolding record_deprovision
  async-record_deprovision id instance' none s spec h = ground arith
  async-record_deprovision id instance' (some op) s spec h = ground arith

  -- A deprovision call that returns has passed its checks and found the instance. It answers
  -- asynchronously exactly if the provider has named an operation, and answers this operation. If there
  -- is none, the instance is gone; if there is one, the row is the old one with the operation type
  -- "deprovision" and the provider's operation.
  pub deprovision_records :
      (id : String) (details : DeprovisionDetails) (async : Bool) (s : State b)
      (spec : DeprovisionServiceSpec)
      → (deprovision b id details async s).0 ≡ ok spec
      → (d : ServiceInstanceDetails) × (helper : ServiceProvider P) × (vars : VarContext)
        × (op : Option String) × (check_deprovision b id details async s ≡ ok (d, helper, vars))
        × ((helper.deprovision d details vars s.provider).0 ≡ ok op)
        × (spec.is_async ≡ is_some op)
        × (spec.operation_data ≡ named op)
        × (instance_row b id s ≡ some d)
        × (instance_row b id (deprovision b id details async s).1
            ≡ row_after spec.is_async d spec.operation_data)
  unfolding deprovision
  deprovision_records id details async s spec h =
      elim (Result-cases (check_deprovision b id details async s)) [
        | inr (e, failed) ↦ absurd (ground (arith, h, failed))
        | inl ((d, helper, vars), checked) ↦
            elim (Result-cases (helper.deprovision d details vars s.provider).0) [
              | inr (e, failed) ↦ absurd (ground (arith, h, checked, failed))
              | inl (op, done) ↦
                  (let row = check_deprovision_row id details async s (d, helper, vars) checked in
                    let t = record s {
                      provider = (helper.deprovision d details vars s.provider).1;
                    } in
                    (
                      d,
                      helper,
                      vars,
                      op,
                      checked,
                      done,
                      async-record_deprovision id d op t spec (ground (arith, h, checked, done)),
                      operation_data-record_deprovision id d op t spec
                          (ground (arith, h, checked, done)),
                      row,
                      ground (
                        arith,
                        h,
                        checked,
                        done,
                        record_deprovision_row id d op t spec
                            (key-row_at instance_key b.instance_gorm id s.instances d row),
                      ),
                    ))
            ]
      ]

  record_deprovision_failed :
      (id j : String) (instance' : ServiceInstanceDetails) (operation : Option String) (s : State b)
      → is_ok (record_deprovision b id instance' operation s).0 ≡ false
      → instance_row b j (record_deprovision b id instance' operation s).1 ≡ instance_row b j s
  unfolding record_deprovision save_service_instance_details delete_service_instance_details_by_id
  record_deprovision_failed id j instance' none s h = ground (
    arith,
    row_at-delete_failed instance_key b.instance_gorm j (has_key instance_key id) s.instances,
  )
  record_deprovision_failed id j instance' (some op) s h = ground (
    arith,
    row_at-save_failed instance_key b.instance_gorm j (deprovisioning instance' op) s.instances,
  )

  -- A deprovision call that fails leaves every instance as it was.
  pub deprovision_failed :
      (id j : String) (details : DeprovisionDetails) (async : Bool) (s : State b) (e : Error)
      → (deprovision b id details async s).0 ≡ err e
      → instance_row b j (deprovision b id details async s).1 ≡ instance_row b j s
  unfolding deprovision
  deprovision_failed id j details async s e h =
      elim (Result-cases (check_deprovision b id details async s)) [
        | inr (x, failed) ↦ ground (arith, failed)
        | inl ((d, helper, vars), checked) ↦
            elim (Result-cases (helper.deprovision d details vars s.provider).0) [
              | inr (x, failed) ↦ ground (arith, checked, failed)
              | inl (op, done) ↦ ground (
                arith,
                h,
                checked,
                done,
                record_deprovision_failed id j d op
                    (record s { provider = (helper.deprovision d details vars s.provider).1 }),
              )
            ]
      ]
