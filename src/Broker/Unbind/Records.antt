-- ===== src/Broker/Unbind/Records.antt =====
-- What an unbind call leaves in the table of bindings.
use cloud_service_broker.Prelude.{◌≡◌, refl, inl, inr, ◌≤◌, String, true, none, some, arith, Option}
use cloud_service_broker.Prelude.Rows.{count, find-remove_only}
use cloud_service_broker.Outcome.{Error, ok, err, Result-cases}
use cloud_service_broker.Models.{ServiceInstanceDetails, ServiceBindingCredentials}
use cloud_service_broker.Dao.Bindings.{
  binds, by_primary_key, delete_service_binding_credentials,
  get_service_binding_credentials_by_service_instance_id_and_binding_id,
}
use cloud_service_broker.VarContext.{VarContext}
use cloud_service_broker.Service.Definition.{ServiceDefinition}
use cloud_service_broker.Broker.State.{CredStore, ServiceBroker, State}
use cloud_service_broker.Broker.View.{binding_row}
use cloud_service_broker.Broker.Checks.{UnbindDetails, check_unbind}
use cloud_service_broker.Broker.Bind.{get_credential_name}
use cloud_service_broker.Broker.Unbind.{remove_credentials, unbind}

module _ {P K : Type 0} (b : ServiceBroker P K) where
  check_unbind_row :
      (id binding_id : String) (details : UnbindDetails) (s : State b)
      (out : ServiceInstanceDetails × ServiceBindingCredentials × ServiceDefinition P × VarContext)
      → check_unbind b id binding_id details s ≡ ok out
      → binding_row b id binding_id s ≡ some out.1
  unfolding check_unbind get_service_binding_credentials_by_service_instance_id_and_binding_id
  check_unbind_row id binding_id details s out h =
      ground (arith, b.binding_gorm.first_ok (binds id binding_id) s.bindings out.1)

  pub bindings-remove_credentials :
      (store : Option (CredStore K)) (name : String) (s : State b)
      → (remove_credentials b store name s).1.bindings ≡ s.bindings
  unfolding remove_credentials
  bindings-remove_credentials none name s = refl
  bindings-remove_credentials (some k) name s = ground arith

  by_primary_key_self : (r : ServiceBindingCredentials) → by_primary_key r.id r ≡ true
  by_primary_key_self r = ground arith

  -- After an unbind call that returns there is no such binding, if there was at most one.
  pub unbind_records :
      (id binding_id : String) (details : UnbindDetails) (s : State b)
      → count (binds id binding_id) (b.binding_gorm.live s.bindings) ≤ 1
      → (unbind b id binding_id details s).0 ≡ ok tt
      → binding_row b id binding_id (unbind b id binding_id details s).1 ≡ none
  unfolding unbind delete_service_binding_credentials
  unbind_records id binding_id details s one h =
      elim (Result-cases (check_unbind b id binding_id details s)) [
        | inr (e, failed) ↦ absurd (ground (arith, h, failed))
        | inl ((d, r, svc, vars), checked) ↦
            (let name = get_credential_name svc.name binding_id in
              let t = record s { provider = (svc.provider.unbind d r vars s.provider).1 } in
              ground (
                arith,
                h,
                checked,
                bindings-remove_credentials b.credstore name t,
                b.binding_gorm.delete_ok (by_primary_key r.id) s.bindings,
                find-remove_only (binds id binding_id) (by_primary_key r.id) r
                    (b.binding_gorm.live s.bindings) one
                    (check_unbind_row id binding_id details s (d, r, svc, vars) checked)
                    (by_primary_key_self r),
              ))
      ]

  -- An unbind call that fails keeps the record of every binding, so it can be repeated.
  pub unbind_failed :
      (id binding_id : String) (details : UnbindDetails) (s : State b) (e : Error)
      → (unbind b id binding_id details s).0 ≡ err e
      → b.binding_gorm.live (unbind b id binding_id details s).1.bindings
        ≡ b.binding_gorm.live s.bindings
  unfolding unbind delete_service_binding_credentials
  unbind_failed id binding_id details s e h =
      elim (Result-cases (check_unbind b id binding_id details s)) [
        | inr (x, failed) ↦ ground (arith, failed)
        | inl ((d, r, svc, vars), checked) ↦
            (let name = get_credential_name svc.name binding_id in
              let t = record s { provider = (svc.provider.unbind d r vars s.provider).1 } in
              let kept = bindings-remove_credentials b.credstore name t in
              elim (Result-cases (b.binding_gorm.delete (by_primary_key r.id) s.bindings).0) [
                | inl (u, deleted) ↦ ground (arith, h, checked, kept, deleted)
                | inr (x, failed) ↦ ground (
                  arith,
                  h,
                  checked,
                  kept,
                  failed,
                  b.binding_gorm.delete_err (by_primary_key r.id) s.bindings x failed,
                )
              ])
      ]
