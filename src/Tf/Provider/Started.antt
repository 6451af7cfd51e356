-- ===== src/Tf/Provider/Started.antt =====
-- What it means that a call has started a job of the runner.
use cloud_service_broker.Prelude.{◌≡◌, String, some, [], ◌∷◌, ◌++◌, arith, eq_refl}
use cloud_service_broker.Outcome.{Result, ok}
use cloud_service_broker.Models.{TerraformDeployment}
use cloud_service_broker.Tf.Workspace.{TerraformWorkspace}
use cloud_service_broker.Tf.JobRunner.{
  in_progress, Task, TfJobRunner, State, start, stage_job, operation_finished,
}
use cloud_service_broker.Tf.JobRunner.Outcomes.{deployment_row}
use cloud_service_broker.Tf.JobRunner.Starts.{start_row}

-- From the state `t` to `s` one job has been started, with this task, on the deployment `id`.
abbrev pub HasStarted : (r : TfJobRunner) → Task → String → State r → State r → Type 0
HasStarted r task id t s =
    (d : TerraformDeployment) × (ws : TerraformWorkspace) × (d.id ≡ id)
    × (d.last_operation_state ≡ in_progress)
    × (s.running ≡ t.running ++ (record { task = task; deployment = d; workspace = ws } ∷ []))
    × (deployment_row r id s ≡ some d)

module _ (r : TfJobRunner) where
  pub start-HasStarted :
      (prepare : TerraformWorkspace → Result TerraformWorkspace) (task : Task)
      (operation_type id : String) (s : State r)
      → (start r prepare task operation_type id s).0 ≡ ok tt
      → HasStarted r task id s (start r prepare task operation_type id s).1
  start-HasStarted prepare task operation_type id s h =
      let (d, ws, own, busy, _, jobs, rows) = start_row r prepare task operation_type id s h in
      (d, ws, own, busy, jobs, ground (arith, rows id, eq_refl id))

  -- Staging a job starts none.
  running-stage_job :
      (id : String) (ws : TerraformWorkspace) (s : State r)
      → (stage_job r id ws s).1.running ≡ s.running
  unfolding stage_job operation_finished
  running-stage_job id ws s = ground arith

  pub HasStarted-stage_job :
      (task : Task) (id own : String) (ws : TerraformWorkspace) (s s' : State r)
      → HasStarted r task id (stage_job r own ws s).1 s'
      → HasStarted r task id s s'
  HasStarted-stage_job task id own ws s s' (d, w, same, busy, jobs, row) =
      (d, w, same, busy, rw (running-stage_job own ws s) at jobs, row)
