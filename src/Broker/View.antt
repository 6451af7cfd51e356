-- ===== src/Broker/View.antt =====
-- What the tables hold for one instance or binding.
use cloud_service_broker.Prelude.{String, Option}
use cloud_service_broker.Prelude.Rows.{find}
use cloud_service_broker.Models.{
  ServiceInstanceDetails, ServiceBindingCredentials, ProvisionRequestDetails,
}
use cloud_service_broker.Gorm.Keyed.{row_at}
use cloud_service_broker.Dao.Instances.{instance_key}
use cloud_service_broker.Dao.Bindings.{binds}
use cloud_service_broker.Dao.Requests.{of_instance}
use cloud_service_broker.Broker.State.{ServiceBroker, State}

module _ {P K : Type 0} (b : ServiceBroker P K) where
  abbrev pub instance_row : String → State b → Option ServiceInstanceDetails
  instance_row id s = row_at instance_key b.instance_gorm id s.instances

  abbrev pub binding_row : String → String → State b → Option ServiceBindingCredentials
  binding_row instance_id binding_id s =
      find (binds instance_id binding_id) (b.binding_gorm.live s.bindings)

  abbrev pub request_row : String → State b → Option ProvisionRequestDetails
  request_row instance_id s = find (of_instance instance_id) (b.request_gorm.live s.requests)
