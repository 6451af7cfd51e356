-- ===== src/Tf/JobRunner.antt =====
-- pkg/providers/tf/job_runner.go: Terraform jobs in the background, and the table that says how they
-- stand.
pub mod Outcomes
pub mod Starts
pub mod Progress
pub mod Wait
use cloud_service_broker.Prelude.{
  String, Bool, true, false, Option, none, some, List, [], ◌∷◌, ◌++◌, ◌==◌, if◌then◌else◌,
}
use cloud_service_broker.Prelude.StringMap.{lookup}
use cloud_service_broker.Outcome.{Error, Result, ok, err, message, plain, wrapped}
use cloud_service_broker.Outcome.Exec.{Exec, query, lift, pure, ◌>>=◌}
use cloud_service_broker.Json.{Object}
use cloud_service_broker.Models.{
  TerraformDeployment, provision_operation_type, deprovision_operation_type, update_operation_type,
}
use cloud_service_broker.Dao.Deployments.{
  DeploymentGorm, get_terraform_deployment_by_id, save_terraform_deployment,
}
use cloud_service_broker.Tf.Module.{inputs}
use cloud_service_broker.Tf.Workspace.{
  ModuleInstance, TerraformWorkspace, Codecs, first_element, limited_config, deserialize_workspace,
  serialize, workspace_outputs,
}

abbrev pub in_progress : String
in_progress = "in progress"

abbrev pub succeeded : String
succeeded = "succeeded"

abbrev pub failed : String
failed = "failed"

pub record ImportResource : Type 0 where
  pub tf_resource : String
  pub iaas_resource : String

-- What a goroutine runs on its workspace before it calls `operationFinished`.
pub data Task : Type 0 where
  apply destroy : Task
  import' : List ImportResource → Task

-- A goroutine, with the deployment and the workspace that it has captured.
pub record Job : Type 0 where
  pub task : Task
  pub deployment : TerraformDeployment
  pub workspace : TerraformWorkspace

-- The parts that do not change. `sentinel` is the text of an error that only has a name.
pub record TfJobRunner : Type 1 where
  pub codecs : Codecs
  pub gorm : DeploymentGorm
  pub sentinel : Error → String

pub record State (r : TfJobRunner) : Type 0 where
  pub deployments : r.gorm.Table
  pub running : List Job

module _ (r : TfJobRunner) where
  abbrev on_deployments : {A : Type 0} → Exec r.gorm.Table A → Exec (State r) A
  on_deployments m s = let (a, t) = m s.deployments in (a, record s { deployments = t })

  abbrev go : Job → Exec (State r) (Unit {0})
  go job s = (ok tt, record s { running = s.running ++ (job ∷ []) })

  status_message : Result Object → String
  status_message (err e) = ""
  status_message (ok outputs) = elim (lookup "status" outputs) [
    | none ↦ ""
    | some status ↦ r.codecs.print_value status
  ]

  -- The deployment's state and message after an operation that ended in this way.
  unfoldable pub with_outcome :
      Option Error → TerraformWorkspace → ModuleInstance → TerraformDeployment → TerraformDeployment
  unfolding status_message
  with_outcome none workspace instance' deployment = record deployment {
    last_operation_state = succeeded;
    last_operation_message =
        status_message (workspace_outputs r.codecs workspace instance'.instance_name);
  }
  with_outcome (some e) workspace instance' deployment = record deployment {
    last_operation_state = failed;
    last_operation_message = message r.sentinel e;
  }

  unfoldable pub with_workspace : Result String → TerraformDeployment → TerraformDeployment
  with_workspace (ok workspace_string) deployment = record deployment {
    workspace = workspace_string;
  }
  with_workspace (err e) deployment = record deployment {
    workspace = "";
    last_operation_state = failed;
    last_operation_message =
        message r.sentinel
          (wrapped "couldn't serialize workspace, contact your operator for cleanup: " e "");
  }

  -- The instance is only looked at after a success.
  finished_instance : Option Error → TerraformWorkspace → Result ModuleInstance
  finished_instance (some e) workspace =
      ok (record { module_name = ""; instance_name = ""; configuration = [] })
  finished_instance none workspace = elim (first_element workspace.instances) [
    | none ↦ err (plain "index out of range")
    | some instance' ↦ ok instance'
  ]

  unfoldable pub operation_finished :
      Option Error → TerraformWorkspace → TerraformDeployment → Exec (State r) (Unit {0})
  unfolding finished_instance
  operation_finished e workspace deployment = do
    instance' ← lift (finished_instance e workspace)
    on_deployments (
        save_terraform_deployment r.gorm (
          with_workspace (serialize r.codecs workspace)
            (with_outcome e workspace instance' deployment)))

  -- The deployment of the id with the new workspace, or a new one.
  staged : String → String → State r → TerraformDeployment
  staged job_id workspace_string s =
      elim (get_terraform_deployment_by_id r.gorm job_id s.deployments) [
        | ok deployment ↦ record deployment {
          workspace = workspace_string;
          last_operation_type = "validation";
        }
        | err e ↦ record {
          id = job_id;
          workspace = workspace_string;
          last_operation_type = "validation";
          last_operation_state = "";
          last_operation_message = "";
        }
      ]

  unfoldable pub stage_job : String → TerraformWorkspace → Exec (State r) (Unit {0})
  unfolding staged
  stage_job job_id workspace = do
    workspace_string ← lift (serialize r.codecs workspace)
    deployment ← query (λ s. ok (staged job_id workspace_string s))
    operation_finished none workspace deployment

  abbrev pub started : String → TerraformDeployment → TerraformDeployment
  started operation_type deployment = record deployment {
    last_operation_type = operation_type;
    last_operation_state = in_progress;
    last_operation_message = "";
  }

  unfoldable pub mark_job_started :
      TerraformDeployment → String → Exec (State r) TerraformDeployment
  mark_job_started deployment operation_type = do
    saved ← on_deployments (save_terraform_deployment r.gorm (started operation_type deployment))
    pure (started operation_type deployment)

  -- The environment of the executor is not part of the model.
  unfoldable pub hydrate_workspace : TerraformDeployment → Result TerraformWorkspace
  hydrate_workspace deployment = deserialize_workspace r.codecs deployment.workspace

  -- `workspace.Instances[0].Configuration = limitedConfig`, from the inputs of `workspace.Modules[0]`
  unfoldable pub reconfigure : Object → TerraformWorkspace → Result TerraformWorkspace
  reconfigure template_vars workspace = elim (first_element workspace.modules) [
    | none ↦ err (plain "index out of range")
    | some module' ↦ elim (inputs r.codecs.parse_hcl module') [
      | err e ↦ err e
      | ok input_list ↦ configured workspace.instances (limited_config input_list template_vars)
    ]
  ]
    where
      configured : List ModuleInstance → Object → Result TerraformWorkspace
      configured [] config = err (plain "index out of range")
      configured (instance' ∷ rest) config =
          ok (record workspace { instances = record instance' { configuration = config } ∷ rest })

  -- What the commands share: fetch, prepare, mark, and start the goroutine.
  unfoldable pub start :
      (TerraformWorkspace → Result TerraformWorkspace)
      → Task
      → String
      → String
      → Exec (State r) (Unit {0})
  start prepare task operation_type id = do
    deployment ← query (λ s. get_terraform_deployment_by_id r.gorm id s.deployments)
    workspace ← lift (hydrate_workspace deployment)
    prepared ← lift (prepare workspace)
    marked ← mark_job_started deployment operation_type
    go (record { task = task; deployment = marked; workspace = prepared })

  unfoldable pub import_resources : String → List ImportResource → Exec (State r) (Unit {0})
  unfolding start
  import_resources id resources = start ok (import' resources) provision_operation_type id

  unfoldable pub create : String → Exec (State r) (Unit {0})
  unfolding start
  create id = start ok apply provision_operation_type id

  unfoldable pub update : String → Object → Exec (State r) (Unit {0})
  unfolding start
  update id template_vars = start (reconfigure template_vars) apply update_operation_type id

  unfoldable pub destroy_job : String → Object → Exec (State r) (Unit {0})
  unfolding start
  destroy_job id template_vars =
      start (reconfigure template_vars) destroy deprovision_operation_type id

  status_of : TerraformDeployment → (Bool × String) × Option Error
  status_of deployment =
      if deployment.last_operation_state == succeeded
      then ((true, deployment.last_operation_message), none)
      else if deployment.last_operation_state == failed
      then (
        (true, deployment.last_operation_message),
        some (plain deployment.last_operation_message),
      )
      else ((false, deployment.last_operation_message), none)

  -- Whether the job is done and its message, and an error.
  unfoldable pub status : String → State r → (Bool × String) × Option Error
  unfolding status_of
  status id s = elim (get_terraform_deployment_by_id r.gorm id s.deployments) [
    | err e ↦ ((true, ""), some e)
    | ok deployment ↦ status_of deployment
  ]

  unfoldable pub outputs : String → String → State r → Result Object
  outputs id instance_name s = elim (get_terraform_deployment_by_id r.gorm id s.deployments) [
    | err e ↦ err e
    | ok deployment ↦ elim (deserialize_workspace r.codecs deployment.workspace) [
      | err e ↦ err e
      | ok ws ↦ workspace_outputs r.codecs ws instance_name
    ]
  ]
