-- ===== src/Tf/Lifecycle.antt =====
-- The broker on top of the Terraform provider: a deprovision call, the polls that follow it, and the end
-- of its job.
pub mod Calls
use cloud_service_broker.Prelude.{
  ◌≡◌, ◌⊎◌, ap, refl, sym, ◌∙◌, String, Bool, true, false, Option, none, some, List, arith, is_some,
}
use cloud_service_broker.Outcome.{Error, ok, is_ok}
use cloud_service_broker.Models.{ServiceInstanceDetails, TerraformDeployment}
use cloud_service_broker.Externals.{Externals}
use cloud_service_broker.VarContext.{VarContext}
use cloud_service_broker.Gorm.Keyed.{key-row_at}
use cloud_service_broker.Dao.Instances.{instance_key}
use cloud_service_broker.Dao.Deployments.{get_terraform_deployment_by_id}
use cloud_service_broker.Service.Provider.{ServiceProvider, DeprovisionDetails}
use cloud_service_broker.Service.Definition.{ServiceDefinition}
use cloud_service_broker.Registry.{get_service_by_id}
use cloud_service_broker.Broker.State.{ServiceBroker}
use cloud_service_broker.Broker.State
use cloud_service_broker.Broker.View.{instance_row}
use cloud_service_broker.Broker.Checks.{check_last_operation}
use cloud_service_broker.Broker.Checks.Providers.{
  check_deprovision_provider, check_last_operation_provider,
}
use cloud_service_broker.Broker.Deprovision
use cloud_service_broker.Broker.Deprovision.{DeprovisionServiceSpec, deprovisioning}
use cloud_service_broker.Broker.Deprovision.Records.{deprovision_records}
use cloud_service_broker.Broker.LastOperation
use cloud_service_broker.Broker.LastOperation.{last_operation, LastOperation}
use cloud_service_broker.Broker.LastOperation.Records.{check_last_operation_row}
use cloud_service_broker.Tf.Workspace.{TerraformWorkspace, serialize}
use cloud_service_broker.Tf.JobRunner.{TfJobRunner, State, operation_finished, status}
use cloud_service_broker.Tf.JobRunner.Outcomes.{status-operation_finished}
use cloud_service_broker.Tf.JobRunner.Wait.{Tick}
use cloud_service_broker.Tf.Definition.{TfServiceDefinitionV1, generate_tf_id}
use cloud_service_broker.Tf.Provider.{new_terraform_provider, poll_instance}
use cloud_service_broker.Tf.Provider
use cloud_service_broker.Tf.Provider.Removal.{deprovision_starts, poll-deprovision, poll_done}
use cloud_service_broker.Tf.Lifecycle.Calls.{
  provider-deprovision, last_operation_not_done, removal_completes,
}

clean_of : (e : Option Error) → is_some e ≡ false → e ≡ none
clean_of none h = refl
clean_of (some e) h = absurd (ground (arith, h))

-- Every service of the broker is one that Terraform provides.
abbrev pub IsTerraform :
    {K : Type 0} (x : Externals) (r : TfJobRunner)
    → (State r → String → List (Tick r))
    → ServiceBroker (State r) K
    → Type 0
IsTerraform x r ticks b =
    (id : String) (sd : ServiceDefinition (State r))
    → get_service_by_id b.registry id ≡ ok sd
    → (definition : TfServiceDefinitionV1) × (sd.provider
        ≡ new_terraform_provider x r ticks definition)

module _ {K : Type 0} (x : Externals) (r : TfJobRunner) (ticks : State r → String → List (Tick r))
    (b : ServiceBroker (State r) K) where
  -- The state that a deprovision call leaves.
  abbrev pub removing : String → DeprovisionDetails → Bool → State.State b → State.State b
  removing id details async s = (Deprovision.deprovision b id details async s).1

  -- A deprovision call of a broker whose services Terraform provides, if it returns, answers
  -- asynchronously and keeps the instance, marked as being removed; the provider's state is the one that
  -- the provider's own call has left.
  pub deprovision_terraform :
      (id : String) (details : DeprovisionDetails) (async : Bool) (s : State.State b)
      (spec : DeprovisionServiceSpec)
      → IsTerraform x r ticks b
      → (Deprovision.deprovision b id details async s).0 ≡ ok spec
      → let s' = (Deprovision.deprovision b id details async s).1 in
        (spec.is_async ≡ true)
        × ((d : ServiceInstanceDetails) × (vars : VarContext) × (d.id ≡ id)
            × ((Provider.deprovision r d details vars s.provider).0
                ≡ ok (some (generate_tf_id id "")))
            × (s'.provider ≡ (Provider.deprovision r d details vars s.provider).1)
            × (instance_row b id s' ≡ some (deprovisioning d spec.operation_data)))
  unfolding new_terraform_provider
  deprovision_terraform id details async s spec terraform h =
      let (d, helper, vars, op, checked, done, kind, _, row, after) =
        deprovision_records b id details async s spec h in
      let (sd, found, own) =
        check_deprovision_provider b id details async s (d, helper, vars) checked in
      let (definition, provided) = terraform d.service_id sd found in
      let same : helper ≡ new_terraform_provider x r ticks definition = own ∙ provided in
      let done' : (Provider.deprovision r d details vars s.provider).0 ≡ ok op = rw same at done in
      let named = (deprovision_starts r d details vars s.provider op done').0 in
      let mine = key-row_at instance_key b.instance_gorm id s.instances d row in
      let left = provider-deprovision b id details async s d helper vars op checked done in
      let async' : spec.is_async ≡ true = rw (kind, named) refl in
      let named' : op ≡ some (generate_tf_id id "") =
        named ∙ ap (λ i. some (generate_tf_id i "")) mine in
      (async', (d, vars, mine, done' ∙ ap (λ o. ok o) named', rw same at left, rw async' at after))

  check_last_operation_terraform :
      (id : String) (s : State.State b) (d : ServiceInstanceDetails)
      (out : ServiceInstanceDetails × ServiceProvider (State r))
      → IsTerraform x r ticks b
      → check_last_operation b id s ≡ ok out
      → instance_row b id s ≡ some d
      → (definition : TfServiceDefinitionV1) × (out
          ≡ (d, new_terraform_provider x r ticks definition))
  check_last_operation_terraform id s d out terraform checked row =
      let (sd, found, own) = check_last_operation_provider b id s out checked in
      let (definition, provided) = terraform out.0.service_id sd found in
      let read = check_last_operation_row b (λ _. "") id s out checked in
      let same : out.0 ≡ d = ground (arith, read, row) in
      (definition, λ i. (same i, (own ∙ provided) i))

  -- With Terraform behind every service, a poll right after a deprovision call that has returned says
  -- that the operation is in progress, provided that it reads the instance and the deployment.
  pub deprovision_pending :
      (sentinel : Error → String) (id : String) (details : DeprovisionDetails) (async : Bool)
      (s : State.State b) (spec : DeprovisionServiceSpec) (row : TerraformDeployment)
      (out : ServiceInstanceDetails × ServiceProvider (State r))
      → IsTerraform x r ticks b
      → (Deprovision.deprovision b id details async s).0 ≡ ok spec
      → check_last_operation b id (removing id details async s) ≡ ok out
      → get_terraform_deployment_by_id r.gorm
          (generate_tf_id id "")
          (removing id details async s).provider.deployments
        ≡ ok row
      → last_operation b sentinel id (removing id details async s) ≡ (
        (record { state = LastOperation.in_progress; description = "" }, none),
        removing id details async s,
      )
  unfolding new_terraform_provider poll_instance
  deprovision_pending sentinel id details async s spec row out terraform h checked read =
      let s' = removing id details async s in
      let (_, (d, vars, mine, done, left, kept)) =
        deprovision_terraform id details async s spec terraform h in
      let (definition, same) =
        check_last_operation_terraform id s' (deprovisioning d spec.operation_data) out terraform
          checked kept in
      let read' : get_terraform_deployment_by_id r.gorm (generate_tf_id d.id "")
            (Provider.deprovision r d details vars s.provider).1.deployments
          ≡ ok row =
        rw (mine, ← left) read in
      let polled =
        poll-deprovision r d details vars s.provider (some (generate_tf_id id "")) row done read' in
      last_operation_not_done b sentinel id s' (deprovisioning d spec.operation_data)
        (new_terraform_provider x r ticks definition) "" (checked ∙ ap (λ o. ok o) same)
        (moved d s'.provider polled left)
    where
      moved :
          (d : ServiceInstanceDetails) (p : State r) {q : State r}
          → poll_instance r d q ≡ (ok (false, ""), q)
          → p ≡ q
          → poll_instance r (deprovisioning d spec.operation_data) p ≡ (ok (false, ""), p)
      moved d p polled e = rw e polled

  -- The same state of the broker after the goroutine of a deployment has ended without an error.
  abbrev pub after_success :
      TerraformWorkspace → TerraformDeployment → State.State b → State.State b
  after_success ws ended s = record s {
    provider = (operation_finished r none ws ended s.provider).1;
  }

  -- With Terraform behind every service: when a deprovision call has returned and its job has ended
  -- without an error on a workspace that can be serialized, and this end is recorded, a poll that reads
  -- the instance and the deployment reports success, and the instance is gone unless the poll also
  -- returns an error.
  pub deprovision_completes :
      (sentinel : Error → String) (id : String) (details : DeprovisionDetails) (async : Bool)
      (s : State.State b) (spec : DeprovisionServiceSpec) (ws : TerraformWorkspace)
      (ended row : TerraformDeployment) (out : ServiceInstanceDetails × ServiceProvider (State r))
      → IsTerraform x r ticks b
      → (Deprovision.deprovision b id details async s).0 ≡ ok spec
      → ended.id ≡ generate_tf_id id ""
      → is_ok (serialize r.codecs ws) ≡ true
      → (operation_finished r none ws ended (removing id details async s).provider).0 ≡ ok tt
      → get_terraform_deployment_by_id r.gorm ended.id
          (after_success ws ended (removing id details async s)).provider.deployments
        ≡ ok row
      → check_last_operation b id (after_success ws ended (removing id details async s)) ≡ ok out
      → let over =
          last_operation b sentinel id (after_success ws ended (removing id details async s)) in
        (over.0.0.state ≡ LastOperation.succeeded)
        × ((instance_row b id over.1 ≡ none) ⊎ ((e : Error) × (over.0.1 ≡ some e)))
  unfolding new_terraform_provider
  deprovision_completes sentinel id details async s spec ws ended row out terraform h own written
        recorded read checked =
      let s' = removing id details async s in
      let s'' = after_success ws ended s' in
      let (_, (d, vars, mine, done, left, kept)) =
        deprovision_terraform id details async s spec terraform h in
      let (definition, same) =
        check_last_operation_terraform id s'' (deprovisioning d spec.operation_data) out terraform
          checked kept in
      let (over, well) = status-operation_finished r none ws ended row s'.provider recorded read in
      let p = s''.provider in
      let named : generate_tf_id (deprovisioning d spec.operation_data).id "" ≡ ended.id =
        ap (λ i. generate_tf_id i "") mine ∙ sym own in
      let polled =
        poll_done r (deprovisioning d spec.operation_data) p
          (ap (λ i. (status r i p).0.0) named ∙ over)
          (ap (λ i. (status r i p).1) named
            ∙ clean_of (status r ended.id p).1 (well ∙ rw written refl)) in
      removal_completes b sentinel id s'' (deprovisioning d spec.operation_data)
        (new_terraform_provider x r ticks definition) (status r (generate_tf_id d.id "") p).0.1
        (checked ∙ ap (λ o. ok o) same) kept refl polled
