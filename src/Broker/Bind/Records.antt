-- ===== src/Broker/Bind/Records.antt =====
-- What a bind call leaves in the table of bindings, and what it returns.
use cloud_service_broker.Prelude.{
  ◌≡◌, refl, inl, inr, ℕ, [], ◌∷◌, String, false, none, some, arith, eq_refl, if◌then◌else◌, Option,
  or_else,
}
use cloud_service_broker.Prelude.Rows.{find, find-append}
use cloud_service_broker.Outcome.{ok, Result-cases}
use cloud_service_broker.Json.{Object}
use cloud_service_broker.Models.{ServiceInstanceDetails, ServiceBindingCredentials}
use cloud_service_broker.Dao.Exists.{record_to_exists-first}
use cloud_service_broker.Dao.Bindings.{
  binds, stamp_binding, create_service_binding_credentials,
  exists_service_binding_credentials_by_service_instance_id_and_binding_id,
}
use cloud_service_broker.VarContext.{VarContext}
use cloud_service_broker.Service.Definition.{ServiceDefinition}
use cloud_service_broker.Service.Variables.{BindDetails}
use cloud_service_broker.Broker.State.{CredStore, ServiceBroker, State}
use cloud_service_broker.Broker.View.{binding_row}
use cloud_service_broker.Broker.Checks.{check_bind}
use cloud_service_broker.Broker.Bind.{get_credential_name, new_credentials, store_credentials, bind}

module _ {P K : Type 0} (b : ServiceBroker P K) where
  pub check_bind_fresh :
      (id binding_id : String) (details : BindDetails) (s : State b)
      (out : ServiceInstanceDetails × ServiceDefinition P × VarContext)
      → check_bind b id binding_id details s ≡ ok out
      → binding_row b id binding_id s ≡ none
  unfolding check_bind exists_service_binding_credentials_by_service_instance_id_and_binding_id
  check_bind_fresh id binding_id details s out h =
      ground
        (arith, record_to_exists-first _ _ b.binding_gorm (binds id binding_id) s.bindings false)

  pub bindings-store_credentials :
      (store : Option (CredStore K)) (name : String) (details : BindDetails) (c : Object)
      (s : State b)
      → (store_credentials b store name details c s).1.bindings ≡ s.bindings
  unfolding store_credentials
  bindings-store_credentials none name details c s = refl
  bindings-store_credentials (some k) name details c s = ground arith

  binding_row-create :
      (r : ServiceBindingCredentials) (id binding_id : String) (t : b.binding_gorm.Table)
      → (b.binding_gorm.create r t).0 ≡ ok tt
      → (n : ℕ) × (find (binds id binding_id) (b.binding_gorm.live (b.binding_gorm.create r t).1)
          ≡ or_else
              (find (binds id binding_id) (b.binding_gorm.live t))
              (if binds id binding_id r then some (stamp_binding n r) else none))
  binding_row-create r id binding_id t h =
      let (n, e) = b.binding_gorm.create_ok r t h in
      (n, rw e (find-append (binds id binding_id) (b.binding_gorm.live t) (stamp_binding n r ∷ [])))

  -- A bind call that returns has passed its checks, has found no such binding, and has recorded one,
  -- with the service of the request and the serialized credentials that the provider made of the
  -- request's variables.
  pub bind_records :
      (id binding_id : String) (details : BindDetails) (s : State b) (c : Object)
      → (bind b id binding_id details s).0 ≡ ok c
      → (d : ServiceInstanceDetails) × (svc : ServiceDefinition P) × (vars : VarContext)
        × (creds : Object) × (r : ServiceBindingCredentials) × (check_bind b id binding_id details s
            ≡ ok (d, svc, vars))
        × ((svc.provider.bind vars s.provider).0 ≡ ok creds)
        × (b.externals.marshal_object creds ≡ ok r.other_details)
        × (binding_row b id binding_id s ≡ none)
        × (binding_row b id binding_id (bind b id binding_id details s).1 ≡ some r)
        × (r.service_id ≡ details.service_id)
  unfolding bind create_service_binding_credentials
  bind_records id binding_id details s c h =
      elim (Result-cases (check_bind b id binding_id details s)) [
        | inr (e, failed) ↦ absurd (ground (arith, h, failed))
        | inl ((d, svc, vars), checked) ↦
            elim (Result-cases (svc.provider.bind vars s.provider).0) [
              | inr (e, failed) ↦ absurd (ground (arith, h, checked, failed))
              | inl (creds, bound) ↦ elim (Result-cases (b.externals.marshal_object creds)) [
                | inr (e, failed) ↦ absurd (ground (arith, h, checked, bound, failed))
                | inl (json, encoded) ↦
                    (let (r, stored, fresh, row, service) =
                        recorded d svc vars creds json checked bound encoded in
                      (d, svc, vars, creds, r, checked, bound, stored, fresh, row, service))
              ]
            ]
      ]
    where
      recorded :
          (d : ServiceInstanceDetails) (svc : ServiceDefinition P) (vars : VarContext)
          (creds : Object) (json : String)
          → check_bind b id binding_id details s ≡ ok (d, svc, vars)
          → (svc.provider.bind vars s.provider).0 ≡ ok creds
          → b.externals.marshal_object creds ≡ ok json
          → (r : ServiceBindingCredentials) × (b.externals.marshal_object creds
              ≡ ok r.other_details)
            × (binding_row b id binding_id s ≡ none)
            × (binding_row b id binding_id (bind b id binding_id details s).1 ≡ some r)
            × (r.service_id ≡ details.service_id)
      recorded d svc vars creds json checked bound encoded =
          let row = new_credentials id binding_id details json in
          let created : (b.binding_gorm.create row s.bindings).0 ≡ ok tt =
            ground (arith, h, checked, bound, encoded) in
          let (n, e) = binding_row-create row id binding_id s.bindings created in
          let fresh = check_bind_fresh id binding_id details s (d, svc, vars) checked in
          let p = (svc.provider.bind vars s.provider).1 in
          let built = svc.provider.build_instance_credentials row d p in
          elim (Result-cases built.0) [
            | inr (x, failed) ↦ absurd (ground (arith, h, checked, bound, encoded, created, failed))
            | inl (credentials, done) ↦ (
              stamp_binding n row,
              encoded,
              fresh,
              ground (
                arith,
                h,
                checked,
                bound,
                encoded,
                created,
                done,
                fresh,
                e,
                eq_refl id,
                eq_refl binding_id,
                bindings-store_credentials b.credstore (get_credential_name svc.name binding_id)
                    details credentials
                    (record s {
                      bindings = (b.binding_gorm.create row s.bindings).1;
                      provider = built.1;
                    }),
              ),
              refl,
            )
          ]
