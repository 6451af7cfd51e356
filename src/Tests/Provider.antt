-- ===== src/Tests/Provider.antt =====
-- The Terraform provider on a runner in memory, and the broker on top of it.
use mathlib.Core.List.{Memᴰ}
use cloud_service_broker.Prelude.{
  ◌≡◌, ◌⊎◌, ◌==◌, refl, ap, inl, inr, String, true, false, none, some, List, [], ◌∷◌, arith,
  Bool-cases,
}
use cloud_service_broker.Outcome.{Error, Result, ok, err, plain, is_ok}
use cloud_service_broker.Json.{Value, text}
use cloud_service_broker.Models.{
  ServiceInstanceDetails, TerraformDeployment, provision_operation_type,
}
use cloud_service_broker.Externals.{Externals}
use cloud_service_broker.Gorm.Memory.{memory}
use cloud_service_broker.VarContext.{validate, has_key, get_string, get_bool, error, VarContext}
use cloud_service_broker.Dao.Instances.{instance_key}
use cloud_service_broker.Dao.Bindings.{same_binding, stamp_binding}
use cloud_service_broker.Dao.Requests.{same_request, stamp_request}
use cloud_service_broker.Dao.Deployments.{get_terraform_deployment_by_id}
use cloud_service_broker.Service.Definition.{ServiceDefinition}
use cloud_service_broker.Service.Provider.{ServiceProvider}
use cloud_service_broker.Registry.{get_service_by_id}
use cloud_service_broker.Broker.State.{ServiceBroker}
use cloud_service_broker.Broker.State
use cloud_service_broker.Broker.View.{instance_row}
use cloud_service_broker.Broker.Checks.{check_last_operation}
use cloud_service_broker.Broker.Deprovision.{DeprovisionServiceSpec, deprovisioning}
use cloud_service_broker.Broker.Deprovision
use cloud_service_broker.Broker.LastOperation.{last_operation, LastOperation}
use cloud_service_broker.Broker.LastOperation
use cloud_service_broker.Tf.Workspace.{new_workspace, serialize}
use cloud_service_broker.Tf.Definition.{generate_tf_id, is_tf_import}
use cloud_service_broker.Tf.JobRunner.{
  stage_job, import_resources, create, State, apply, outputs, operation_finished, status, Task,
}
use cloud_service_broker.Tf.JobRunner.Wait.{wait, Tick, cancelled, second, state_after}
use cloud_service_broker.Tf.Provider.{
  wait_for, mapping_of, import_transformer, import_create, error_of, deprovision, create_or_import,
  create_job, new_terraform_provider, default_instance_name, tf_id_of, operation_details, provision,
  bind,
}
use cloud_service_broker.Tf.Provider.Started.{HasStarted}
use cloud_service_broker.Tf.Provider.Laws.{provision_starts, IsProvisionTask}
use cloud_service_broker.Tf.Provider.Binding.{bind_waits}
use cloud_service_broker.Tf.Lifecycle.{
  IsTerraform, removing, after_success, deprovision_pending, deprovision_completes,
}
use cloud_service_broker.Tests.Scene.{
  world, plan, vault, sentinel, details_of, request, to_deprovision,
}
use cloud_service_broker.Tests.Fields.{definition}
use cloud_service_broker.Tests.Jobs.{runner, workspace, idle, ready, deployment}
use cloud_service_broker.Broker.Deprovision.{record_deprovision}
use cloud_service_broker.Broker.Checks.{check_deprovision}
use cloud_service_broker.Dao.Instances.{
  get_service_instance_details_by_id, save_service_instance_details,
}
use cloud_service_broker.Service.Plans.{get_plan_by_id}
use cloud_service_broker.Dao.Requests.{get_provision_request_details_by_instance_id}
use cloud_service_broker.Service.Variables.{provision_variables}
use cloud_service_broker.Tf.JobRunner.{
  destroy_job, hydrate_workspace, reconfigure, mark_job_started, start, with_workspace,
  with_outcome,
}
use cloud_service_broker.Tf.Workspace.{
  deserialize_workspace, first_element, limited_config, workspace_outputs,
}
use cloud_service_broker.Tf.Module.{decode, inputs, new_tfstate, get_outputs}
use cloud_service_broker.Prelude.Sorting.{insert_sorted, sort_by}
use cloud_service_broker.VarContext.{to_map}
use cloud_service_broker.Dao.Deployments.{save_terraform_deployment}
use cloud_service_broker.Tf.Provider.{poll_instance}
use cloud_service_broker.Broker.LastOperation.{update_state_on_operation_completion}

abbrev said : Value → Result String
said (text s) = ok s
said _ = err (plain "no text")

abbrev talking : Externals
talking = record world { to_string = said }

abbrev ticks : State runner → String → List (Tick runner)
ticks _ _ = second ready ∷ []

abbrev variables : VarContext
variables = record { errors = []; context = ("tf_id", text "tf:i:") ∷ [] }

abbrev started : ServiceInstanceDetails
started = operation_details "tf:i:" provision_operation_type

provision_returns : (provision talking runner definition variables idle).0 ≡ ok started
unfolding provision create_or_import is_tf_import create_job tf_id_of error get_string new_workspace
    inputs decode stage_job serialize operation_finished first_element save_terraform_deployment
    create get_terraform_deployment_by_id insert_sorted sort_by hydrate_workspace import_resources
    mark_job_started start with_outcome with_workspace get_outputs new_tfstate error_of
    import_create import_transformer mapping_of deserialize_workspace limited_config
    workspace_outputs get_bool has_key to_map validate
provision_returns = refl

provision_starts_example :
    let found = is_tf_import talking definition.provision_settings variables in
    (started ≡ operation_details "tf:i:" provision_operation_type)
    × (tf_id_of talking found.1 ≡ ok "tf:i:")
    × ((task : Task) × IsProvisionTask talking runner definition.provision_settings found.0
          found.1.context task
        × HasStarted runner task "tf:i:" idle
            (provision talking runner definition variables idle).1)
provision_starts_example =
    provision_starts talking runner definition variables idle started provision_returns

bind_returns : (bind talking runner ticks definition variables idle).0 ≡ ok []
unfolding bind create_job tf_id_of error get_string new_workspace inputs decode stage_job serialize
    operation_finished first_element save_terraform_deployment create get_terraform_deployment_by_id
    with_workspace with_outcome insert_sorted sort_by state_after wait hydrate_workspace
    mark_job_started outputs start status get_outputs new_tfstate error_of wait_for
    deserialize_workspace limited_config workspace_outputs to_map validate
bind_returns = refl

bind_waits_example :
    (id : String) × (s' : State runner) × (tf_id_of talking variables ≡ ok id)
    × HasStarted runner apply id idle s'
    × (outputs runner id default_instance_name (state_after runner (ticks s' id) id s') ≡ ok [])
    × (Memᴰ cancelled (ticks s' id)
        ⊎ ((t : State runner) × Memᴰ (second t) (ticks s' id)
            × ((status runner id t).0.0 ≡ true)
            × ((status runner id t).1 ≡ none)))
bind_waits_example = bind_waits talking runner ticks definition variables idle [] bind_returns

abbrev offered : ServiceDefinition (State runner)
offered = record {
  id = "s";
  name = "store";
  description = "";
  display_name = "";
  image_url = "";
  documentation_url = "";
  support_url = "";
  tags = [];
  bindable = true;
  plan_updateable = true;
  plans = plan ∷ [];
  provision_input_variables = [];
  provision_computed_variables = [];
  bind_input_variables = [];
  bind_output_variables = [];
  bind_computed_variables = [];
  examples = [];
  plan_variables = [];
  provider = new_terraform_provider talking runner ticks definition;
  is_builtin = false;
}

abbrev broker : ServiceBroker (State runner) (Unit {0})
broker = record {
  externals = talking;
  registry = ("store", offered) ∷ [];
  credstore = some vault;
  instance_gorm = memory (λ a b. instance_key a == instance_key b) (λ _ r. r);
  binding_gorm = memory same_binding stamp_binding;
  request_gorm = memory same_request stamp_request;
}

broker-IsTerraform : IsTerraform talking runner ticks broker
unfolding get_service_by_id
broker-IsTerraform id sd found = elim (Bool-cases ("s" == id)) [
  | inl own ↦
      (let same : sd ≡ offered = ground (arith, found, own) in
        (definition, ap (λ (p : ServiceDefinition (State runner)). p.provider) same))
  | inr other ↦ absurd (ground (arith, found, other))
]

abbrev settled : State.State broker
settled = record {
  instances = details_of "" ∷ [];
  bindings = [];
  requests = request ∷ [];
  provider = ready;
  creds = tt;
}

abbrev accepted : DeprovisionServiceSpec
accepted = record { is_async = true; operation_data = "tf:i:" }

abbrev leaving : ServiceInstanceDetails × ServiceProvider (State runner)
leaving =
    (deprovisioning (details_of "") "tf:i:", new_terraform_provider talking runner ticks definition)

deprovision_returns :
    (Deprovision.deprovision broker "i" (to_deprovision "p") true settled).0 ≡ ok accepted
unfolding Deprovision.deprovision record_deprovision check_deprovision
    get_service_instance_details_by_id get_service_by_id get_plan_by_id new_terraform_provider
    get_provision_request_details_by_instance_id provision_variables deprovision destroy_job
    get_terraform_deployment_by_id generate_tf_id hydrate_workspace deserialize_workspace
    reconfigure first_element inputs decode sort_by limited_config to_map mark_job_started serialize
    save_terraform_deployment start save_service_instance_details
deprovision_returns = refl

abbrev after : State.State broker
after = removing talking runner ticks broker "i" (to_deprovision "p") true settled

abbrev being_removed : TerraformDeployment
being_removed = record (deployment "in progress") { last_operation_type = "deprovision" }

abbrev removed : TerraformDeployment
removed = record (deployment "succeeded") { last_operation_type = "deprovision" }

abbrev over : State.State broker
over = after_success talking runner ticks broker workspace being_removed after

deployment_read :
    get_terraform_deployment_by_id runner.gorm (generate_tf_id "i" "") after.provider.deployments
    ≡ ok being_removed
unfolding Deprovision.deprovision record_deprovision check_deprovision
    get_service_instance_details_by_id get_service_by_id get_plan_by_id new_terraform_provider
    get_provision_request_details_by_instance_id provision_variables deprovision destroy_job
    get_terraform_deployment_by_id generate_tf_id hydrate_workspace deserialize_workspace
    reconfigure first_element inputs decode sort_by limited_config to_map mark_job_started serialize
    save_terraform_deployment start save_service_instance_details
deployment_read = refl

poll_reads : check_last_operation broker "i" after ≡ ok leaving
unfolding Deprovision.deprovision record_deprovision check_deprovision
    get_service_instance_details_by_id get_service_by_id get_plan_by_id new_terraform_provider
    get_provision_request_details_by_instance_id provision_variables deprovision destroy_job
    get_terraform_deployment_by_id generate_tf_id hydrate_workspace deserialize_workspace
    reconfigure first_element inputs decode sort_by limited_config to_map mark_job_started serialize
    save_terraform_deployment start save_service_instance_details check_last_operation poll_instance
    status
poll_reads = refl

deprovision_pending_example :
    last_operation broker sentinel "i" after
    ≡ ((record { state = LastOperation.in_progress; description = "" }, none), after)
deprovision_pending_example =
    deprovision_pending talking runner ticks broker sentinel "i" (to_deprovision "p") true settled
      accepted being_removed leaving broker-IsTerraform deprovision_returns poll_reads
      deployment_read

own_id : being_removed.id ≡ generate_tf_id "i" ""
unfolding generate_tf_id
own_id = refl

written : is_ok (serialize runner.codecs workspace) ≡ true
unfolding serialize
written = refl

end_recorded : (operation_finished runner none workspace being_removed after.provider).0 ≡ ok tt
unfolding Deprovision.deprovision record_deprovision check_deprovision
    get_service_instance_details_by_id get_service_by_id get_plan_by_id new_terraform_provider
    get_provision_request_details_by_instance_id provision_variables deprovision destroy_job
    get_terraform_deployment_by_id generate_tf_id hydrate_workspace deserialize_workspace
    reconfigure first_element inputs decode sort_by limited_config to_map mark_job_started serialize
    save_terraform_deployment start save_service_instance_details check_last_operation poll_instance
    status operation_finished with_workspace with_outcome workspace_outputs new_tfstate get_outputs
end_recorded = refl

end_read : get_terraform_deployment_by_id runner.gorm "tf:i:" over.provider.deployments ≡ ok removed
unfolding Deprovision.deprovision record_deprovision check_deprovision
    get_service_instance_details_by_id get_service_by_id get_plan_by_id new_terraform_provider
    get_provision_request_details_by_instance_id provision_variables deprovision destroy_job
    get_terraform_deployment_by_id generate_tf_id hydrate_workspace deserialize_workspace
    reconfigure first_element inputs decode sort_by limited_config to_map mark_job_started serialize
    save_terraform_deployment start save_service_instance_details check_last_operation poll_instance
    status operation_finished with_workspace with_outcome workspace_outputs new_tfstate get_outputs
end_read = refl

end_polled : check_last_operation broker "i" over ≡ ok leaving
unfolding Deprovision.deprovision record_deprovision check_deprovision
    get_service_instance_details_by_id get_service_by_id get_plan_by_id new_terraform_provider
    get_provision_request_details_by_instance_id provision_variables deprovision destroy_job
    get_terraform_deployment_by_id generate_tf_id hydrate_workspace deserialize_workspace
    reconfigure first_element inputs decode sort_by limited_config to_map mark_job_started serialize
    save_terraform_deployment start save_service_instance_details check_last_operation poll_instance
    status operation_finished with_workspace with_outcome workspace_outputs new_tfstate get_outputs
end_polled = refl

deprovision_completes_example :
    let polled = last_operation broker sentinel "i" over in
    (polled.0.0.state ≡ LastOperation.succeeded)
    × ((instance_row broker "i" polled.1 ≡ none) ⊎ ((e : Error) × (polled.0.1 ≡ some e)))
deprovision_completes_example =
    deprovision_completes talking runner ticks broker sentinel "i" (to_deprovision "p") true settled
      accepted workspace being_removed removed leaving broker-IsTerraform deprovision_returns own_id
      written end_recorded end_read end_polled
