-- ===== src/Broker/Bind/Stored.antt =====
-- What a bind call hands out and keeps when the broker has a credential store.
use Prim.Native.String.{◌++◌ as append}
use cloud_service_broker.Prelude.{◌≡◌, refl, inl, inr, [], ◌∷◌, String, some, arith}
use cloud_service_broker.Outcome.Exec.{Exec}
use cloud_service_broker.Outcome.{ok, Result-cases}
use cloud_service_broker.Json.{Object, text}
use cloud_service_broker.Models.{ServiceInstanceDetails, ServiceBindingCredentials}
use cloud_service_broker.VarContext.{VarContext}
use cloud_service_broker.Service.Definition.{ServiceDefinition}
use cloud_service_broker.Service.Variables.{BindDetails}
use cloud_service_broker.Dao.Bindings.{create_service_binding_credentials}
use cloud_service_broker.Broker.State.{CredStore, ServiceBroker, State}
use cloud_service_broker.Broker.Checks.{check_bind}
use cloud_service_broker.Broker.Bind.{get_credential_name, new_credentials, store_credentials, bind}

-- `/c/csb/<service>/<binding>/secrets-and-services`
abbrev pub credential_path : String → String → String
credential_path service binding_id =
    append "/c/csb/" (append service (append "/" (append binding_id "/secrets-and-services")))

module _ {P K : Type 0} (b : ServiceBroker P K) where
  -- Credentials are put under a name, and the app is then permitted to read them, whatever came of it.
  abbrev pub put_for_app : CredStore K → String → BindDetails → Object → Exec K (Unit {0})
  put_for_app store name details c k =
      store.add_permission name (append "mtls-app:" details.app_guid) ("read" ∷ [])
        (store.put name c k).1

  store_credentials_inverse :
      (store : CredStore K) (name : String) (details : BindDetails) (c out : Object) (s : State b)
      → (store_credentials b (some store) name details c s).0 ≡ ok out
      → (out ≡ ("credhub-ref", text name) ∷ [])
        × ((store.put name c s.creds).0 ≡ ok tt)
        × ((store_credentials b (some store) name details c s).1.creds
            ≡ (put_for_app store name details c s.creds).1)
        × ((put_for_app store name details c s.creds).0 ≡ ok tt)
  unfolding store_credentials
  store_credentials_inverse store name details c out s h =
      elim (Result-cases (store.put name c s.creds).0) [
        | inr (e, failed) ↦ absurd (ground (arith, h, failed))
        | inl (_, put) ↦ elim (Result-cases (put_for_app store name details c s.creds).0) [
          | inr (e, failed) ↦ absurd (ground (arith, h, put, failed))
          | inl (_, permitted) ↦
              (ground (arith, h, put), put, ground (arith, put, permitted), permitted)
        ]
      ]

  stored :
      (id binding_id : String) (details : BindDetails) (s : State b) (c : Object)
      (store : CredStore K)
      → b.credstore ≡ some store
      → (bind b id binding_id details s).0 ≡ ok c
      → (d : ServiceInstanceDetails) (svc : ServiceDefinition P) (vars : VarContext)
        (creds : Object) (json : String)
      → check_bind b id binding_id details s ≡ ok (d, svc, vars)
      → (svc.provider.bind vars s.provider).0 ≡ ok creds
      → b.externals.marshal_object creds ≡ ok json
      → (built : Object) × ((svc.provider.build_instance_credentials
            (new_credentials id binding_id details json)
            d
            (svc.provider.bind vars s.provider).1).0
          ≡ ok built)
        × (c ≡ ("credhub-ref", text (credential_path svc.name binding_id)) ∷ [])
        × ((store.put (credential_path svc.name binding_id) built s.creds).0 ≡ ok tt)
        × ((bind b id binding_id details s).1.creds
            ≡ (put_for_app store (credential_path svc.name binding_id) details built s.creds).1)
        × ((put_for_app store (credential_path svc.name binding_id) details built s.creds).0
            ≡ ok tt)
  unfolding bind get_credential_name
  stored id binding_id details s c store e h d svc vars creds json checked bound encoded =
      let row = new_credentials id binding_id details json in
      let name = credential_path svc.name binding_id in
      let created = create_service_binding_credentials b.binding_gorm row s.bindings in
      let out =
        svc.provider.build_instance_credentials row d (svc.provider.bind vars s.provider).1 in
      elim (Result-cases created.0) [
        | inr (x, failed) ↦ absurd (ground (arith, h, checked, bound, encoded, failed))
        | inl (_, recorded) ↦ elim (Result-cases out.0) [
          | inr (x, failed) ↦ absurd (ground (arith, h, checked, bound, encoded, recorded, failed))
          | inl (built, done) ↦
              (let t = record s { bindings = created.1; provider = out.1 } in
                let returned : (store_credentials b (some store) name details built t).0 ≡ ok c =
                  ground (arith, h, e, checked, bound, encoded, recorded, done) in
                let (answer, put, kept, permitted) =
                  store_credentials_inverse store name details built c t returned in
                (
                  built,
                  done,
                  answer,
                  put,
                  ground (arith, h, e, checked, bound, encoded, recorded, done, kept),
                  permitted,
                ))
        ]
      ]

  -- With a credential store, a bind call that returns has passed its checks, has stored the credentials
  -- that the provider has built for the binding under the name
  -- `/c/csb/<service's name>/<binding's id>/secrets-and-services`, has then given the app the permission to
  -- read them, and hands out only this name.
  pub bind_hides_credentials :
      (id binding_id : String) (details : BindDetails) (s : State b) (c : Object)
      (store : CredStore K)
      → b.credstore ≡ some store
      → (bind b id binding_id details s).0 ≡ ok c
      → (d : ServiceInstanceDetails) × (svc : ServiceDefinition P) × (vars : VarContext)
        × (r : ServiceBindingCredentials) × (built : Object) × (check_bind b id binding_id details s
            ≡ ok (d, svc, vars))
        × (r.service_instance_id ≡ id)
        × (r.binding_id ≡ binding_id)
        × ((svc.provider.build_instance_credentials r d (svc.provider.bind vars s.provider).1).0
            ≡ ok built)
        × (c ≡ ("credhub-ref", text (credential_path svc.name binding_id)) ∷ [])
        × ((store.put (credential_path svc.name binding_id) built s.creds).0 ≡ ok tt)
        × ((bind b id binding_id details s).1.creds
            ≡ (put_for_app store (credential_path svc.name binding_id) details built s.creds).1)
        × ((put_for_app store (credential_path svc.name binding_id) details built s.creds).0
            ≡ ok tt)
  unfolding bind get_credential_name
  bind_hides_credentials id binding_id details s c store e h =
      elim (Result-cases (check_bind b id binding_id details s)) [
        | inr (x, failed) ↦ absurd (ground (arith, h, failed))
        | inl ((d, svc, vars), checked) ↦
            elim (Result-cases (svc.provider.bind vars s.provider).0) [
              | inr (x, failed) ↦ absurd (ground (arith, h, checked, failed))
              | inl (creds, bound) ↦ elim (Result-cases (b.externals.marshal_object creds)) [
                | inr (x, failed) ↦ absurd (ground (arith, h, checked, bound, failed))
                | inl (json, encoded) ↦
                    (let (built, done, out, put, kept, permitted) =
                        stored id binding_id details s c store e h d svc vars creds json checked
                          bound encoded in
                      (
                        d,
                        svc,
                        vars,
                        new_credentials id binding_id details json,
                        built,
                        checked,
                        refl,
                        refl,
                        done,
                        out,
                        put,
                        kept,
                        permitted,
                      ))
              ]
            ]
      ]
