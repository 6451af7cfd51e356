-- ===== src/Tf/JobRunner/Starts.antt =====
-- What the table says of a job that has started.
use cloud_service_broker.Prelude.{
  ◌≡◌, ap, refl, inl, inr, String, false, none, some, [], ◌∷◌, ◌++◌, arith, ◌==◌, eq_refl,
  if◌then◌else◌,
}
use cloud_service_broker.Outcome.{Result, ok, is_ok, Result-cases}
use cloud_service_broker.Models.{TerraformDeployment}
use cloud_service_broker.Gorm.Keyed.{has_key, row_at-save, row_at-save_failed, key-row_at}
use cloud_service_broker.Dao.Deployments.{
  deployment_key, get_terraform_deployment_by_id, save_terraform_deployment,
}
use cloud_service_broker.Tf.Workspace.{TerraformWorkspace}
use cloud_service_broker.Tf.JobRunner.{
  in_progress, succeeded, failed, Task, apply, TfJobRunner, State, status_of, hydrate_workspace,
  started, mark_job_started, start, create, status,
}
use cloud_service_broker.Tf.JobRunner.Outcomes.{deployment_row, get_terraform_deployment_by_id_row}

module _ (r : TfJobRunner) where
  pub start_failed :
      (prepare : TerraformWorkspace → Result TerraformWorkspace) (task : Task)
      (operation_type id j : String) (s : State r)
      → is_ok (start r prepare task operation_type id s).0 ≡ false
      → ((start r prepare task operation_type id s).1.running ≡ s.running)
        × (deployment_row r j (start r prepare task operation_type id s).1 ≡ deployment_row r j s)
  unfolding start mark_job_started save_terraform_deployment
  start_failed prepare task operation_type id j s h =
      elim (Result-cases (get_terraform_deployment_by_id r.gorm id s.deployments)) [
        | inr (x, refused) ↦ (ground (arith, refused), ground (arith, refused))
        | inl (d, found) ↦ elim (Result-cases (hydrate_workspace r d)) [
          | inr (x, refused) ↦ (ground (arith, found, refused), ground (arith, found, refused))
          | inl (ws, hydrated) ↦ elim (Result-cases (prepare ws)) [
            | inr (x, refused) ↦
                (ground (arith, found, hydrated, refused), ground (arith, found, hydrated, refused))
            | inl (ws', prepared) ↦
                (let unsaved =
                    row_at-save_failed deployment_key r.gorm j (started r operation_type d)
                      s.deployments in
                  (
                    ground (arith, h, found, hydrated, prepared),
                    ground (arith, h, found, hydrated, prepared, unsaved),
                  ))
          ]
        ]
      ]

  pub start_row :
      (prepare : TerraformWorkspace → Result TerraformWorkspace) (task : Task)
      (operation_type id : String) (s : State r)
      → (start r prepare task operation_type id s).0 ≡ ok tt
      → (d : TerraformDeployment) × (ws : TerraformWorkspace) × (d.id ≡ id)
        × (d.last_operation_state ≡ in_progress)
        × (d.last_operation_message ≡ "")
        × ((start r prepare task operation_type id s).1.running
            ≡ s.running ++ (record { task = task; deployment = d; workspace = ws } ∷ []))
        × ((j : String)
            → deployment_row r j (start r prepare task operation_type id s).1
              ≡ (if id == j then some d else deployment_row r j s))
  unfolding start mark_job_started save_terraform_deployment get_terraform_deployment_by_id
  start_row prepare task operation_type id s h =
      elim (Result-cases (r.gorm.first (has_key deployment_key id) s.deployments)) [
        | inr (x, refused) ↦ absurd (ground (arith, h, refused))
        | inl (d, found) ↦ elim (Result-cases (hydrate_workspace r d)) [
          | inr (x, refused) ↦ absurd (ground (arith, h, found, refused))
          | inl (ws, hydrated) ↦ elim (Result-cases (prepare ws)) [
            | inr (x, refused) ↦ absurd (ground (arith, h, found, hydrated, refused))
            | inl (ws', prepared) ↦
                (let own =
                    key-row_at deployment_key r.gorm id s.deployments d
                      (r.gorm.first_ok (has_key deployment_key id) s.deployments d found) in
                  let d' = started r operation_type d in
                  (
                    d',
                    ws',
                    own,
                    refl,
                    refl,
                    ground (arith, h, found, hydrated, prepared),
                    λ j. ground (
                      arith,
                      h,
                      found,
                      hydrated,
                      prepared,
                      own,
                      row_at-save deployment_key r.gorm j d' s.deployments,
                    ),
                  ))
          ]
        ]
      ]

  -- Whatever has started a job, a poll that reads its deployment reports it as not done.
  pub status-start :
      (prepare : TerraformWorkspace → Result TerraformWorkspace) (task : Task)
      (operation_type id : String) (s : State r) (d : TerraformDeployment)
      → (start r prepare task operation_type id s).0 ≡ ok tt
      → let s' = (start r prepare task operation_type id s).1 in
        get_terraform_deployment_by_id r.gorm id s'.deployments ≡ ok d
        → status r id s' ≡ ((false, ""), none)
  unfolding status status_of
  status-start prepare task operation_type id s d h read =
      let s' = (start r prepare task operation_type id s).1 in
      let (new, _, own, busy, blank, _, rows) = start_row prepare task operation_type id s h in
      let row = get_terraform_deployment_by_id_row r id s' d read in
      let same : d ≡ new = ground (arith, row, rows id, eq_refl id) in
      let other : (d.last_operation_state == succeeded) ≡ false = rw (same, busy) refl in
      let another : (d.last_operation_state == failed) ≡ false = rw (same, busy) refl in
      ground (arith, read, other, another, ap (λ t. t.last_operation_message) same, blank)

  -- A job that has started is reported as not done by a poll that reads its deployment.
  pub status-create :
      (id : String) (s : State r) (d : TerraformDeployment)
      → (create r id s).0 ≡ ok tt
      → let s' = (create r id s).1 in
        get_terraform_deployment_by_id r.gorm id s'.deployments ≡ ok d
        → status r id s' ≡ ((false, ""), none)
  unfolding create
  status-create id s d h read = status-start ok apply _ id s d h read
