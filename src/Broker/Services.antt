-- ===== src/Broker/Services.antt =====
-- `Services`, and the calls that the broker does not support.
use cloud_service_broker.Prelude.{String, List, [], ◌∷◌}
use cloud_service_broker.Outcome.{
  Result, ok, err, ◌>>=◌, async_required, get_instances_unsupported, get_bindings_unsupported,
}
use cloud_service_broker.Externals.{Externals}
use cloud_service_broker.Catalog.{PlainService, to_plain}
use cloud_service_broker.Service.Definition.{ServiceDefinition}
use cloud_service_broker.Service.Plans.{catalog_entry}
use cloud_service_broker.Registry.{get_enabled_services}
use cloud_service_broker.Broker.State.{ServiceBroker}
use cloud_service_broker.Broker.LastOperation.{LastOperation}

unfoldable pub entries :
    {P : Type 0} → Externals → List (ServiceDefinition P) → Result (List PlainService)
entries x [] = ok []
entries x (service ∷ services) = do
  entry ← catalog_entry x service
  svcs ← entries x services
  ok (to_plain entry ∷ svcs)

module _ {P K : Type 0} (b : ServiceBroker P K) where
  unfoldable pub services : Result (List PlainService)
  unfolding entries
  services = do
    enabled_services ← get_enabled_services b.externals b.registry
    entries b.externals enabled_services

unfoldable pub get_binding : String → String → Result (Unit {0})
get_binding instance_id binding_id = err get_bindings_unsupported

unfoldable pub get_instance : String → Result (Unit {0})
get_instance instance_id = err get_instances_unsupported

unfoldable pub last_binding_operation : String → String → Result LastOperation
last_binding_operation instance_id binding_id = err async_required
