-- ===== src/Tests/Jobs.antt =====
-- A job runner whose table is in memory.
use mathlib.Core.List.{Memᴰ}
use mathlib.Core.List.Memᴰ.{head, tail}
use cloud_service_broker.Prelude.{
  ◌≢◌, ◌≡◌, refl, String, true, not, ◌||◌, none, some, [], ◌∷◌, ◌==◌, is_some,
}
use cloud_service_broker.Outcome.{Error, ok, is_ok}
use cloud_service_broker.Models.{TerraformDeployment}
use cloud_service_broker.Gorm.Memory.{memory}
use cloud_service_broker.Dao.Deployments.{
  save_terraform_deployment, deployment_key, get_terraform_deployment_by_id,
}
use cloud_service_broker.Tf.Module.{new_tfstate, get_outputs, pos}
use cloud_service_broker.Tf.Workspace.{
  first_element, TerraformWorkspace, Codecs, serialize, deserialize_workspace, workspace_outputs,
}
use cloud_service_broker.Tf.JobRunner.{
  with_workspace, with_outcome, mark_job_started, hydrate_workspace, Job, TfJobRunner, State,
  operation_finished, stage_job, create, status, outputs,
}
use cloud_service_broker.Tf.JobRunner.Outcomes.{
  deployment_row, status-operation_finished, outputs-operation_finished,
}
use cloud_service_broker.Tf.JobRunner.Wait.{second, wait, wait_returns}
use cloud_service_broker.Tf.JobRunner.Progress.{
  Reachable, initial, next, stage, created, reachable-IsTracked,
}

abbrev pub workspace : TerraformWorkspace
workspace = record {
  modules = (record { name = "m"; definition = ""; definitions = [] }) ∷ [];
  instances = (record { module_name = "m"; instance_name = "instance"; configuration = [] }) ∷ [];
  state = "state";
  transformer = record {
    parameter_mappings = [];
    parameters_to_remove = [];
    parameters_to_add = [];
  };
}

abbrev pub codecs : Codecs
codecs = record {
  marshal_workspace = λ _. ok "workspace";
  unmarshal_workspace = λ _. ok workspace;
  unmarshal_state = λ _. ok (record { version = pos 4; outputs = [] });
  parse_hcl = λ _. ok [];
  print_value = λ _. "";
}

abbrev pub runner : TfJobRunner
runner = record {
  codecs = codecs;
  gorm = memory (λ a b. deployment_key a == deployment_key b) (λ _ r. r);
  sentinel = λ _. "error";
}

abbrev pub idle : State runner
idle = record { deployments = []; running = [] }

-- A deployment in this state.
abbrev pub deployment : String → TerraformDeployment
deployment state = record {
  id = "tf:i:";
  workspace = "workspace";
  last_operation_type = "provision";
  last_operation_state = state;
  last_operation_message = "";
}

abbrev pub busy : State runner
busy = record { deployments = deployment "in progress" ∷ []; running = [] }

end_recorded : (operation_finished runner none workspace (deployment "in progress") busy).0 ≡ ok tt
unfolding operation_finished first_element save_terraform_deployment
end_recorded = refl

end_read :
    get_terraform_deployment_by_id runner.gorm "tf:i:"
      (operation_finished runner none workspace (deployment "in progress") busy).1.deployments
    ≡ ok (deployment "succeeded")
unfolding get_terraform_deployment_by_id operation_finished first_element save_terraform_deployment
    with_workspace serialize with_outcome workspace_outputs new_tfstate get_outputs
end_read = refl

status-operation_finished_example :
    let s' = (operation_finished runner none workspace (deployment "in progress") busy).1 in
    ((status runner "tf:i:" s').0.0 ≡ true)
    × (is_some (status runner "tf:i:" s').1
        ≡ (is_some {A = Error} none || not (is_ok (serialize codecs workspace))))
status-operation_finished_example =
    status-operation_finished runner none workspace (deployment "in progress")
      (deployment "succeeded") busy end_recorded end_read

encodes : serialize codecs workspace ≡ ok "workspace"
unfolding serialize
encodes = refl

decodes : deserialize_workspace codecs "workspace" ≡ ok workspace
unfolding deserialize_workspace
decodes = refl

outputs-operation_finished_example :
    outputs runner "tf:i:" "instance"
      (operation_finished runner none workspace (deployment "in progress") busy).1
    ≡ workspace_outputs codecs workspace "instance"
outputs-operation_finished_example =
    outputs-operation_finished runner none workspace (deployment "in progress")
      (deployment "succeeded") busy "workspace" "instance" end_recorded encodes decodes end_read

abbrev pub ready : State runner
ready = record { deployments = deployment "succeeded" ∷ []; running = [] }

creates : (create runner "tf:i:" ready).0 ≡ ok tt
unfolding create get_terraform_deployment_by_id hydrate_workspace deserialize_workspace
    mark_job_started save_terraform_deployment
creates = refl

start_read :
    get_terraform_deployment_by_id runner.gorm "tf:i:" (create runner "tf:i:" ready).1.deployments
    ≡ ok (deployment "in progress")
unfolding get_terraform_deployment_by_id create hydrate_workspace deserialize_workspace
    mark_job_started save_terraform_deployment
start_read = refl

abbrev staged_state : State runner
staged_state = (stage_job runner "tf:i:" workspace idle).1

abbrev created_state : State runner
created_state = (create runner "tf:i:" staged_state).1

abbrev reached : Reachable runner created_state
reached =
    next staged_state created_state
      (next idle staged_state (initial idle refl) (stage "tf:i:" workspace idle))
      (created "tf:i:" staged_state)

in_progress_row : deployment_row runner "tf:i:" created_state ≡ some (deployment "in progress")
unfolding create get_terraform_deployment_by_id stage_job serialize operation_finished first_element
    save_terraform_deployment with_workspace with_outcome hydrate_workspace deserialize_workspace
    mark_job_started
in_progress_row = refl

reachable-IsTracked_example :
    (job : Job) × Memᴰ job created_state.running × (job.deployment.id ≡ "tf:i:")
reachable-IsTracked_example =
    reachable-IsTracked runner created_state reached "tf:i:" (deployment "in progress")
      in_progress_row refl

waits : wait runner (second busy ∷ second ready ∷ []) "tf:i:" ≡ some none
unfolding wait status get_terraform_deployment_by_id
waits = refl

ready_done : (status runner "tf:i:" ready).0.0 ≡ true
unfolding status get_terraform_deployment_by_id
ready_done = refl

wait_returns_example : wait runner (second busy ∷ second ready ∷ []) "tf:i:" ≢ none
wait_returns_example =
    wait_returns runner (second busy ∷ second ready ∷ []) "tf:i:" ready (tail (head refl))
      ready_done
