-- ===== src/Broker/Provision/Records.antt =====
-- What a provision call leaves in the tables.
use cloud_service_broker.Prelude.{
  ◌≡◌, ◌≢◌, refl, inl, inr, ℕ, ap, [], ◌∷◌, String, Bool, false, none, some, arith, eq_refl,
  if◌then◌else◌, or_else,
}
use cloud_service_broker.Outcome.{ok, Result-cases}
use cloud_service_broker.Prelude.Rows.{find, find-append}
use cloud_service_broker.Models.{ServiceInstanceDetails, ProvisionRequestDetails}
use cloud_service_broker.Gorm.Keyed.{row_at-create, has_key}
use cloud_service_broker.Dao.Exists.{record_to_exists-first}
use cloud_service_broker.Dao.Instances.{
  instance_key, create_service_instance_details, exists_service_instance_details_by_id,
}
use cloud_service_broker.Dao.Requests.{create_provision_request_details, of_instance, stamp_request}
use cloud_service_broker.Service.Provider.{ServiceProvider}
use cloud_service_broker.VarContext.{VarContext}
use cloud_service_broker.Service.Variables.{ProvisionDetails}
use cloud_service_broker.Broker.State.{ServiceBroker, State}
use cloud_service_broker.Broker.View.{instance_row, request_row}
use cloud_service_broker.Broker.Checks.{check_provision}
use cloud_service_broker.Broker.Provision.{
  ProvisionedServiceSpec, identified, request_of, record_instance, provision,
}

module _ {P K : Type 0} (b : ServiceBroker P K) where
  -- The test for an existing instance comes first.
  pub check_provision_fresh :
      (id : String) (details : ProvisionDetails) (async : Bool) (s : State b)
      (out : ServiceProvider P × VarContext)
      → check_provision b id details async s ≡ ok out
      → instance_row b id s ≡ none
  unfolding check_provision exists_service_instance_details_by_id
  check_provision_fresh id details async s out h = ground (
    arith,
    record_to_exists-first _ _ b.instance_gorm (has_key instance_key id) s.instances false,
  )

  record_instance_row :
      (d : ServiceInstanceDetails) (pr : ProvisionRequestDetails) (s : State b)
      → (record_instance b d pr s).0 ≡ ok tt
      → instance_row b d.id (record_instance b d pr s).1 ≡ or_else (instance_row b d.id s) (some d)
  unfolding record_instance create_service_instance_details create_provision_request_details
  record_instance_row d pr s h =
      ground (arith, row_at-create instance_key b.instance_gorm d.id d s.instances, eq_refl d.id)

  record_instance_request :
      (d : ServiceInstanceDetails) (pr : ProvisionRequestDetails) (s : State b)
      → (record_instance b d pr s).0 ≡ ok tt
      → (n : ℕ) × ((id : String)
          → request_row b id (record_instance b d pr s).1
            ≡ or_else
                (request_row b id s)
                (if of_instance id pr then some (stamp_request n pr) else none))
  unfolding record_instance create_service_instance_details create_provision_request_details
  record_instance_request d pr s h =
      let created : (b.request_gorm.create pr s.requests).0 ≡ ok tt = ground (arith, h) in
      let (n, e) = b.request_gorm.create_ok pr s.requests created in
      (
        n,
        λ id. ground (
          arith,
          h,
          e,
          find-append (of_instance id) (b.request_gorm.live s.requests) (stamp_request n pr ∷ []),
          ap (find (of_instance id)) e,
        ),
      )

  -- A provision call that returns has passed its checks, has found no instance of that id, and has
  -- recorded under this id the details that the provider made of the request's variables, with the id
  -- of the call and the service, plan, space and organization of the request; it answers the provider's
  -- operation.
  pub provision_records :
      (id : String) (details : ProvisionDetails) (async : Bool) (s : State b)
      (spec : ProvisionedServiceSpec)
      → (provision b id details async s).0 ≡ ok spec
      → (helper : ServiceProvider P) × (vars : VarContext) × (d : ServiceInstanceDetails)
        × (check_provision b id details async s ≡ ok (helper, vars))
        × ((helper.provision vars s.provider).0 ≡ ok d)
        × (instance_row b id s ≡ none)
        × (instance_row b id (provision b id details async s).1
            ≡ some (record d {
              service_id = details.service_id;
              id = id;
              plan_id = details.plan_id;
              space_guid = details.space_guid;
              organization_guid = details.organization_guid;
            }))
        × (spec.operation_data ≡ d.operation_id)
  unfolding provision
  provision_records id details async s spec h =
      elim (Result-cases (check_provision b id details async s)) [
        | inr (e, failed) ↦ absurd (ground (arith, h, failed))
        | inl ((helper, vars), checked) ↦ elim (Result-cases (helper.provision vars s.provider).0) [
          | inr (e, failed) ↦ absurd (ground (arith, h, checked, failed))
          | inl (d, provisioned) ↦ (
            helper,
            vars,
            d,
            checked,
            provisioned,
            check_provision_fresh id details async s (helper, vars) checked,
            ground (
              arith,
              h,
              checked,
              provisioned,
              check_provision_fresh id details async s (helper, vars) checked,
              record_instance_row (identified id details d) (request_of id details)
                  (record s { provider = (helper.provision vars s.provider).1 }),
            ),
            ground (arith, h, checked, provisioned),
          )
        ]
      ]

  -- A provision call that returns has stored the parameters of the request, if no earlier request of
  -- the same instance id is on record.
  pub provision_keeps_request :
      (id : String) (details : ProvisionDetails) (async : Bool) (s : State b)
      (spec : ProvisionedServiceSpec)
      → (provision b id details async s).0 ≡ ok spec
      → request_row b id s ≡ none
      → (r : ProvisionRequestDetails) × (request_row b id (provision b id details async s).1
          ≡ some r)
        × (r.request_details ≡ details.raw_parameters)
  unfolding provision
  provision_keeps_request id details async s spec h unseen =
      elim (Result-cases (check_provision b id details async s)) [
        | inr (e, failed) ↦ absurd (ground (arith, h, failed))
        | inl ((helper, vars), checked) ↦ elim (Result-cases (helper.provision vars s.provider).0) [
          | inr (e, failed) ↦ absurd (ground (arith, h, checked, failed))
          | inl (d, provisioned) ↦
              (let t = record s { provider = (helper.provision vars s.provider).1 } in
                let recorded : (record_instance b (identified id details d) (request_of id details)
                      t).0
                    ≡ ok tt =
                  ground (arith, h, checked, provisioned) in
                let (n, e) =
                  record_instance_request (identified id details d) (request_of id details) t
                    recorded in
                (
                  stamp_request n (request_of id details),
                  ground (arith, h, checked, provisioned, e id, unseen, eq_refl id),
                  refl,
                ))
        ]
      ]

  provision_existing :
      (id : String) (details : ProvisionDetails) (async : Bool) (s : State b)
      (d : ServiceInstanceDetails) (spec : ProvisionedServiceSpec)
      → instance_row b id s ≡ some d
      → ((provision b id details async s).1 ≡ s) × ((provision b id details async s).0 ≢ ok spec)
  unfolding provision
  provision_existing id details async s d spec row =
      elim (Result-cases (check_provision b id details async s)) [
        | inr (e, failed) ↦ (ground (arith, failed), λ h. ground (arith, failed, h))
        | inl (out, checked) ↦
            absurd (ground (arith, row, check_provision_fresh id details async s out checked))
      ]

  -- A second provision call with the id of an instance changes nothing and does not return.
  pub provision_twice :
      (id : String) (details again : ProvisionDetails) (async async' : Bool) (s : State b)
      (spec spec' : ProvisionedServiceSpec)
      → (provision b id details async s).0 ≡ ok spec
      → let s' = (provision b id details async s).1 in
        ((provision b id again async' s').1 ≡ s') × ((provision b id again async' s').0 ≢ ok spec')
  provision_twice id details again async async' s spec spec' h =
      let (_, _, d, _, _, _, row, _) = provision_records id details async s spec h in
      provision_existing id again async' (provision b id details async s).1
        (identified id details d) spec' row
