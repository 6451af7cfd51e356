-- ===== src/Broker.antt =====
-- brokerapi/brokers/service_broker.go: the calls of the Open Service Broker API. Logging is left out.
pub mod State
pub mod View
pub mod Checks
pub mod Provision
pub mod Deprovision
pub mod Bind
pub mod Unbind
pub mod LastOperation
pub mod Update
pub mod Services
pub mod Bindings
pub mod Reachable
pub mod Frame
pub mod Ledger
pub mod Refinement
