-- ===== src/Broker/Bindings.antt =====
-- What each call does to the table of bindings.
use cloud_service_broker.Prelude.{
  ◌≡◌, ◌⊎◌, refl, ap, ◌∙◌, inl, inr, ◌≤◌, [], ◌∷◌, ◌++◌, String, Bool, none, arith,
}
use cloud_service_broker.Prelude.Rows.{count, count-remove-le}
use cloud_service_broker.Outcome.{Error, ok, Result-cases}
use cloud_service_broker.Json.{Object}
use cloud_service_broker.VarContext.{VarContext}
use cloud_service_broker.Service.Definition.{ServiceDefinition}
use cloud_service_broker.Models.{ServiceInstanceDetails, ServiceBindingCredentials}
use cloud_service_broker.Dao.Bindings.{
  stamp_binding, by_primary_key, create_service_binding_credentials,
  delete_service_binding_credentials,
}
use cloud_service_broker.Service.Provider.{DeprovisionDetails}
use cloud_service_broker.Service.Variables.{ProvisionDetails, UpdateDetails, BindDetails}
use cloud_service_broker.Broker.State.{ServiceBroker, State}
use cloud_service_broker.Broker.View.{binding_row}
use cloud_service_broker.Broker.Checks.{UnbindDetails, check_bind, check_unbind}
use cloud_service_broker.Broker.Provision.{provision, record_instance}
use cloud_service_broker.Broker.Deprovision.{deprovision, record_deprovision}
use cloud_service_broker.Broker.Bind.{bind, new_credentials, get_credential_name}
use cloud_service_broker.Broker.Bind.Records.{check_bind_fresh, bindings-store_credentials}
use cloud_service_broker.Broker.Unbind.{unbind}
use cloud_service_broker.Broker.Unbind.Records.{bindings-remove_credentials}
use cloud_service_broker.Broker.Update.{update, save_plan}
use cloud_service_broker.Broker.LastOperation.{
  last_operation, update_state_on_operation_completion, delete_instance, finalize_instance,
}

module _ {P K : Type 0} (b : ServiceBroker P K) (sentinel : Error → String) where
  pub bindings-provision :
      (id : String) (details : ProvisionDetails) (async : Bool) (s : State b)
      → (provision b id details async s).1.bindings ≡ s.bindings
  unfolding provision record_instance
  bindings-provision id details async s = ground arith

  pub bindings-deprovision :
      (id : String) (details : DeprovisionDetails) (async : Bool) (s : State b)
      → (deprovision b id details async s).1.bindings ≡ s.bindings
  unfolding deprovision record_deprovision
  bindings-deprovision id details async s = ground arith

  pub bindings-update :
      (id : String) (details : UpdateDetails) (async : Bool) (s : State b)
      → (update b id details async s).1.bindings ≡ s.bindings
  unfolding update save_plan
  bindings-update id details async s = ground arith

  pub bindings-last_operation :
      (id : String) (s : State b) → (last_operation b sentinel id s).1.bindings ≡ s.bindings
  unfolding last_operation update_state_on_operation_completion delete_instance finalize_instance
  bindings-last_operation id s = ground arith

  pub bind_bindings :
      (id binding_id : String) (details : BindDetails) (s : State b)
      → (b.binding_gorm.live (bind b id binding_id details s).1.bindings
          ≡ b.binding_gorm.live s.bindings)
        ⊎ ((r : ServiceBindingCredentials) × (r.service_instance_id ≡ id)
            × (r.binding_id ≡ binding_id)
            × (binding_row b id binding_id s ≡ none)
            × (b.binding_gorm.live (bind b id binding_id details s).1.bindings
                ≡ b.binding_gorm.live s.bindings ++ (r ∷ [])))
  unfolding bind create_service_binding_credentials
  bind_bindings id binding_id details s =
      elim (Result-cases (check_bind b id binding_id details s)) [
        | inr (e, refused) ↦ inl (ground (arith, refused))
        | inl ((d, svc, vars), checked) ↦
            elim (Result-cases (svc.provider.bind vars s.provider).0) [
              | inr (e, refused) ↦ inl (ground (arith, checked, refused))
              | inl (creds, made) ↦ elim (Result-cases (b.externals.marshal_object creds)) [
                | inr (e, refused) ↦ inl (ground (arith, checked, made, refused))
                | inl (json, encoded) ↦
                    (let row = new_credentials id binding_id details json in
                      elim (Result-cases (b.binding_gorm.create row s.bindings).0) [
                        | inr (e, refused) ↦ inl (
                            ground (
                              arith,
                              checked,
                              made,
                              encoded,
                              refused,
                              b.binding_gorm.create_err row s.bindings e refused,
                            ))
                        | inl (u, created) ↦
                            (let (n, added) = b.binding_gorm.create_ok row s.bindings created in
                              inr (
                                stamp_binding n row,
                                refl,
                                refl,
                                check_bind_fresh b id binding_id details s (d, svc, vars) checked,
                                ap (λ t. b.binding_gorm.live t)
                                      (the_table d svc vars creds json checked made encoded created)
                                    ∙ added,
                              ))
                      ])
              ]
            ]
      ]
    where
      the_table :
          (d : ServiceInstanceDetails) (svc : ServiceDefinition P) (vars : VarContext)
          (creds : Object) (json : String)
          → check_bind b id binding_id details s ≡ ok (d, svc, vars)
          → (svc.provider.bind vars s.provider).0 ≡ ok creds
          → b.externals.marshal_object creds ≡ ok json
          → let row = new_credentials id binding_id details json in
            (b.binding_gorm.create row s.bindings).0 ≡ ok tt
            → (bind b id binding_id details s).1.bindings ≡ (b.binding_gorm.create row s.bindings).1
      the_table d svc vars creds json checked made encoded created =
          let row = new_credentials id binding_id details json in
          let p = (svc.provider.bind vars s.provider).1 in
          let built = svc.provider.build_instance_credentials row d p in
          let t = record s {
            bindings = (b.binding_gorm.create row s.bindings).1;
            provider = built.1;
          } in
          elim (Result-cases built.0) [
            | inr (e, refused) ↦ ground (arith, checked, made, encoded, created, refused)
            | inl (credentials, done) ↦ ground (
              arith,
              checked,
              made,
              encoded,
              created,
              done,
              bindings-store_credentials b b.credstore (get_credential_name svc.name binding_id)
                  details credentials t,
            )
          ]

  pub unbind_bindings :
      (id binding_id : String) (details : UnbindDetails) (s : State b)
      → (c : ServiceBindingCredentials → Bool)
      → count c (b.binding_gorm.live (unbind b id binding_id details s).1.bindings)
        ≤ count c (b.binding_gorm.live s.bindings)
  unfolding unbind delete_service_binding_credentials
  unbind_bindings id binding_id details s c =
      elim (Result-cases (check_unbind b id binding_id details s)) [
        | inr (x, refused) ↦ ground (arith, refused)
        | inl ((d, r, svc, vars), checked) ↦
            (let name = get_credential_name svc.name binding_id in
              let t = record s { provider = (svc.provider.unbind d r vars s.provider).1 } in
              let kept = bindings-remove_credentials b b.credstore name t in
              let rows = b.binding_gorm.live s.bindings in
              elim (Result-cases (b.binding_gorm.delete (by_primary_key r.id) s.bindings).0) [
                | inl (u, deleted) ↦ ground (
                  arith,
                  checked,
                  kept,
                  deleted,
                  b.binding_gorm.delete_ok (by_primary_key r.id) s.bindings deleted,
                  count-remove-le c (by_primary_key r.id) rows,
                )
                | inr (x, refused) ↦ ground (
                  arith,
                  checked,
                  kept,
                  refused,
                  b.binding_gorm.delete_err (by_primary_key r.id) s.bindings x refused,
                )
              ])
      ]
