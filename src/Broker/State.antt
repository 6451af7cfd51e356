-- ===== src/Broker/State.antt =====
-- The broker's fixed parts, and the state that its calls change.
use cloud_service_broker.Prelude.{String, List, Option}
use cloud_service_broker.Outcome.Exec.{Exec}
use cloud_service_broker.Json.{Object}
use cloud_service_broker.Externals.{Externals}
use cloud_service_broker.Dao.Instances.{InstanceGorm}
use cloud_service_broker.Dao.Bindings.{BindingGorm}
use cloud_service_broker.Dao.Requests.{RequestGorm}
use cloud_service_broker.Registry.{BrokerRegistry}

-- pkg/credstore `CredStore`: the operations that the broker uses.
pub record CredStore (K : Type 0) : Type 0 where
  pub put : String → Object → Exec K (Unit {0})
  pub delete : String → Exec K (Unit {0})
  pub add_permission : String → String → List String → Exec K (Unit {0})
  pub delete_permission : String → Exec K (Unit {0})

-- `P` is the state of the back ends, `K` that of the credential store.
pub record ServiceBroker (P K : Type 0) : Type 1 where
  pub externals : Externals
  pub registry : BrokerRegistry P
  pub credstore : Option (CredStore K)
  pub instance_gorm : InstanceGorm
  pub binding_gorm : BindingGorm
  pub request_gorm : RequestGorm

pub record State {P K : Type 0} (b : ServiceBroker P K) : Type 0 where
  pub instances : b.instance_gorm.Table
  pub bindings : b.binding_gorm.Table
  pub requests : b.request_gorm.Table
  pub provider : P
  pub creds : K

module _ {P K : Type 0} (b : ServiceBroker P K) {A : Type 0} where
  abbrev pub on_instances : Exec b.instance_gorm.Table A → Exec (State b) A
  on_instances m s = let (r, t) = m s.instances in (r, record s { instances = t })

  abbrev pub on_bindings : Exec b.binding_gorm.Table A → Exec (State b) A
  on_bindings m s = let (r, t) = m s.bindings in (r, record s { bindings = t })

  abbrev pub on_requests : Exec b.request_gorm.Table A → Exec (State b) A
  on_requests m s = let (r, t) = m s.requests in (r, record s { requests = t })

  abbrev pub on_provider : Exec P A → Exec (State b) A
  on_provider m s = let (r, p) = m s.provider in (r, record s { provider = p })

  abbrev pub on_creds : Exec K A → Exec (State b) A
  on_creds m s = let (r, k) = m s.creds in (r, record s { creds = k })
