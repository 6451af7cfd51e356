-- ===== src/Broker/Bind.antt =====
-- `Bind`
pub mod Records
pub mod Stored
use Prim.Native.String.{◌++◌}
use cloud_service_broker.Prelude.{String, Option, none, some, [], ◌∷◌}
use cloud_service_broker.Outcome.Exec.{Exec, query, lift, pure, ◌>>=◌, ◌>>◌, or_raise}
use cloud_service_broker.Json.{text, Object}
use cloud_service_broker.Models.{ServiceBindingCredentials}
use cloud_service_broker.Dao.Bindings.{create_service_binding_credentials}
use cloud_service_broker.Service.Variables.{BindDetails}
use cloud_service_broker.Broker.State.{
  CredStore, ServiceBroker, State, on_bindings, on_provider, on_creds,
}
use cloud_service_broker.Broker.Checks.{check_bind, because}

unfoldable pub get_credential_name : String → String → String
get_credential_name service_name binding_id =
    "/c/csb/" ++ (service_name ++ ("/" ++ (binding_id ++ "/secrets-and-services")))

abbrev pub new_credentials : String → String → BindDetails → String → ServiceBindingCredentials
new_credentials instance_id binding_id details serialized = record {
  id = 0;
  other_details = serialized;
  service_id = details.service_id;
  service_instance_id = instance_id;
  binding_id = binding_id;
}

module _ {P K : Type 0} (b : ServiceBroker P K) where
  -- With a credential store the caller gets a reference in place of the credentials.
  unfoldable pub store_credentials :
      Option (CredStore K) → String → BindDetails → Object → Exec (State b) Object
  store_credentials none credential_name details credentials = pure credentials
  store_credentials (some credstore) credential_name details credentials = do
    or_raise (on_creds b (credstore.put credential_name credentials))
        (because "Bind failure: unable to put credentials in Credstore: " "")
    or_raise
        (on_creds b (
          credstore.add_permission credential_name ("mtls-app:" ++ details.app_guid) ("read" ∷ [])))
        (because "Bind failure: Unable to add Credstore permissions to app: " "")
    pure (("credhub-ref", text credential_name) ∷ [])

  -- The credentials of the binding that is returned.
  unfoldable pub bind : String → String → BindDetails → Exec (State b) Object
  bind instance_id binding_id details = do
    (instance_record, service_definition, vars) ←
        query (check_bind b instance_id binding_id details)
    creds_details ← on_provider b (service_definition.provider.bind vars)
    serialized_creds ← or_raise (lift (b.externals.marshal_object creds_details)) (
        because "Error serializing credentials: "
          ". WARNING: these credentials cannot be unbound through cf. Please contact your operator for cleanup")
    or_raise
        (on_bindings b (
          create_service_binding_credentials b.binding_gorm
            (new_credentials instance_id binding_id details serialized_creds)))
        (because "Error saving credentials to database: "
          ". WARNING: these credentials cannot be unbound through cf. Please contact your operator for cleanup")
    credentials ← on_provider b (
        service_definition.provider.build_instance_credentials
          (new_credentials instance_id binding_id details serialized_creds) instance_record)
    store_credentials b.credstore (get_credential_name service_definition.name binding_id) details
        credentials
