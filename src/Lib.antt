-- ===== src/Lib.antt =====
-- Cloud service broker: a broker of the Open Service Broker API that keeps its instances and bindings in
-- a database and has Terraform make the services.
--
-- How the parts work together. A platform calls `ServiceBroker` (brokerapi/brokers/service_broker.go). Each
-- call reads the tables through db_service/dao.go, finds the service in the registry (pkg/broker), resolves
-- the variables of the request (pkg/broker/service_definition.go on top of pkg/varcontext), calls the
-- provider of the service, and writes what came of it to the tables. The Terraform provider starts jobs
-- on a job runner (pkg/providers/tf/job_runner.go), which has a table of its own and one goroutine for
-- each job; the platform polls until the job is over.
--
-- The files:
--   Prelude, Outcome, Json: Go's maps, strings, errors, results and `interface{}` values. `Exec S A` is a
--     step on a state that may fail; what it wrote before an error stays written.
--   Models, Gorm, Dao: db_service/models, github.com/jinzhu/gorm as a record of operations and laws, and
--     each function of db_service/dao.go under its name in snake case. Gorm/Memory fills the record.
--   Externals: the calls of encoding/json, HIL, spf13/cast, gojsonschema, viper and os as parameters.
--   VarContext: pkg/varcontext; StringSet: utils/set.go; Toggles: pkg/toggles/toggle.go.
--   Validation: pkg/validation/struct_validator.go and constraint_builder.go; field_error.go is a record of
--     operations and laws.
--   Catalog, Service, Registry: pkg/broker. Service/Validity has the `Validate` methods and Registry/Register
--     the registrations of a start. `Service.Variables.provision_builder` is the chain of
--     `ServiceDefinition.variables`; Service/Precedence is about which source of a variable wins.
--   Policy: pkg/broker/policy; Migration: pkg/config/migration.
--   Broker: service_broker.go. `Broker.State.State` holds the tables, the back ends' state and that of the
--     credential store. Broker/Checks has what a call tests before it changes anything, in the order of the
--     code; Broker/Provision and the others have the whole call, and their Records what it leaves behind.
--     Broker/Reachable has the calls as a step relation, in any order; Broker/Bindings and Broker/Frame are
--     about what each call leaves alone; Broker/Ledger is the abstract view, from ids to services, and
--     Broker/Refinement relates the calls to it.
--   Tf: pkg/providers/tf: stored workspaces, the job runner, and the runner as a step relation in which
--     jobs end in any order, with any outcome and any workspace. Tf/Definition is definition.go, Tf/Provider
--     is provider.go, which fills the record of a service provider that the broker calls, and Tf/Lifecycle
--     is about the broker, the provider and the runner together.
--   Tf/Shell: the commands of wrapper/workspace.go on a disk, with the workspace's mutex. A command on a
--     locked workspace blocks, which is `none`. Tf/Transformer is wrapper/tfimporttransform.go, and
--     Tf/ImportJob the goroutine of `TfJobRunner.Import`.
--   Brokerpak: pkg/brokerpak: manifests, configurations, and which services of a pak are registered.
--   Database: db_service/migrations.go, on gorm's schema calls as a record of operations and laws.
--   Tests: a small broker and a small runner in memory, on which the theorems are run.
--
-- Bounds and fuel: no fuel is needed. Every loop of the modelled code runs over a list or a map, but for
-- `TfJobRunner.Wait`, which polls on a clock: it runs over the ticks to come. Numbers are keys of rows.
--
-- Not modelled: logging; the text of a multierror's count; the processes of Terraform and the executor
-- that starts them; the archives and downloads of brokerpaks, the HTTP server, the command line and the
-- generators, which are input and output. A call of the broker and a command of the runner are one step
-- each: interleavings within one call, between its reads and its writes, are not modelled. A nil message
-- is a blank text, a nil error of a field and an empty one are the same, and `Internal` of a Terraform
-- service, which nothing reads, is left out. The primary key that `Create` writes into the record of a
-- binding, and that `Bind` so passes on to `BuildInstanceCredentials`, is not modelled: the record that is
-- passed on has key 0. A Go panic on an index out of range and `log.Fatalf` are
-- errors.
pub mod Prelude
pub mod Outcome
pub mod Json
pub mod Models
pub mod Gorm
pub mod Dao
pub mod Externals
pub mod VarContext
pub mod StringSet
pub mod Validation
pub mod Service
pub mod Catalog
pub mod Toggles
pub mod Registry
pub mod Broker
pub mod Policy
pub mod Migration
pub mod Tf
pub mod Database
pub mod Brokerpak
pub mod Tests
