-- ===== src/Broker/Unbind.antt =====
-- `Unbind`
pub mod Records
use cloud_service_broker.Prelude.{String, Option, none, some}
use cloud_service_broker.Outcome.{ok}
use cloud_service_broker.Outcome.Exec.{Exec, query, pure, ◌>>=◌, ◌>>◌, or_raise}
use cloud_service_broker.Dao.Bindings.{delete_service_binding_credentials}
use cloud_service_broker.Broker.State.{
  CredStore, ServiceBroker, State, on_bindings, on_provider, on_creds,
}
use cloud_service_broker.Broker.Checks.{UnbindDetails, check_unbind, because}
use cloud_service_broker.Broker.Bind.{get_credential_name}

module _ {P K : Type 0} (b : ServiceBroker P K) where
  -- A failure that is only logged.
  abbrev ignore_error : Exec (State b) (Unit {0}) → Exec (State b) (Unit {0})
  ignore_error m s = (ok tt, (m s).1)

  unfoldable pub remove_credentials : Option (CredStore K) → String → Exec (State b) (Unit {0})
  remove_credentials none credential_name = pure tt
  remove_credentials (some credstore) credential_name = do
    ignore_error (on_creds b (credstore.delete_permission credential_name))
    on_creds b (credstore.delete credential_name)

  unfoldable pub unbind : String → String → UnbindDetails → Exec (State b) (Unit {0})
  unbind instance_id binding_id details = do
    (instance', existing_binding, service_definition, vars) ←
        query (check_unbind b instance_id binding_id details)
    on_provider b (service_definition.provider.unbind instance' existing_binding vars)
    remove_credentials b.credstore (get_credential_name service_definition.name binding_id)
    or_raise (on_bindings b (delete_service_binding_credentials b.binding_gorm existing_binding)) (
        because "Error soft-deleting credentials from database: "
          ". WARNING: these credentials will remain visible in cf. Contact your operator for cleanup")
