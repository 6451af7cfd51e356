-- ===== src/Tf/JobRunner/Outcomes.antt =====
-- What the table says of a job that is over.
use cloud_service_broker.Prelude.{
  ◌≡◌, ◌∙◌, refl, inl, inr, String, Bool, true, false, not, ◌||◌, Option, none, some, arith, ◌==◌,
  eq_iff, eq_refl, is_some, if◌then◌else◌,
}
use cloud_service_broker.Outcome.{Error, Result, ok, err, is_ok, Result-cases}
use cloud_service_broker.Models.{TerraformDeployment}
use cloud_service_broker.Gorm.Keyed.{has_key, row_at, row_at-save, row_at-save_failed}
use cloud_service_broker.Dao.Deployments.{
  deployment_key, get_terraform_deployment_by_id, save_terraform_deployment,
}
use cloud_service_broker.Tf.Workspace.{
  ModuleInstance, TerraformWorkspace, serialize, deserialize_workspace, workspace_outputs,
}
use cloud_service_broker.Tf.JobRunner.{
  succeeded, failed, TfJobRunner, State, with_outcome, with_workspace, operation_finished,
  status_of, finished_instance, status, outputs,
}

module _ (r : TfJobRunner) where
  abbrev pub deployment_row : String → State r → Option TerraformDeployment
  deployment_row id s = row_at deployment_key r.gorm id s.deployments

  abbrev or_blank : Result String → String
  or_blank (ok w) = w
  or_blank (err e) = ""

  -- A deployment that is settled shows the outcome of its job.
  pub settled-outcome :
      (e : Option Error) (ws : TerraformWorkspace) (i : ModuleInstance) (d : TerraformDeployment)
      (w : Result String)
      → let d' = with_workspace r w (with_outcome r e ws i d) in
        (d'.id ≡ d.id)
        × (d'.workspace ≡ or_blank w)
        × (d'.last_operation_state ≡ (if is_some e || not (is_ok w) then failed else succeeded))
  unfolding with_workspace with_outcome
  settled-outcome none ws i d (ok w) = (refl, refl, refl)
  settled-outcome none ws i d (err x) = (refl, refl, refl)
  settled-outcome (some e) ws i d (ok w) = (refl, refl, refl)
  settled-outcome (some e) ws i d (err x) = (refl, refl, refl)

  -- The row that the end of an operation writes, and that no other row changes.
  pub operation_finished_row :
      (e : Option Error) (ws : TerraformWorkspace) (d : TerraformDeployment) (s : State r)
      → (operation_finished r e ws d s).0 ≡ ok tt
      → (d' : TerraformDeployment) × (d'.last_operation_state
          ≡ (if is_some e || not (is_ok (serialize r.codecs ws)) then failed else succeeded))
        × (d'.workspace ≡ or_blank (serialize r.codecs ws))
        × ((id : String)
            → deployment_row id (operation_finished r e ws d s).1
              ≡ (if d.id == id then some d' else deployment_row id s))
  unfolding operation_finished save_terraform_deployment
  operation_finished_row e ws d s h = elim (Result-cases (finished_instance r e ws)) [
    | inr (x, refused) ↦ absurd (ground (arith, h, refused))
    | inl (i, found) ↦
        (let d' = with_workspace r (serialize r.codecs ws) (with_outcome r e ws i d) in
          let shown = settled-outcome e ws i d (serialize r.codecs ws) in
          (
            d',
            shown.2,
            shown.1,
            λ id.
                ground
                  (arith, h, found, shown.0, row_at-save deployment_key r.gorm id d' s.deployments),
          ))
  ]

  pub operation_finished_failed :
      (e : Option Error) (ws : TerraformWorkspace) (d : TerraformDeployment) (s : State r)
      (id : String)
      → is_ok (operation_finished r e ws d s).0 ≡ false
      → deployment_row id (operation_finished r e ws d s).1 ≡ deployment_row id s
  unfolding operation_finished save_terraform_deployment
  operation_finished_failed e ws d s id h = elim (Result-cases (finished_instance r e ws)) [
    | inr (x, refused) ↦ ground (arith, refused)
    | inl (i, found) ↦
        (let d' = with_workspace r (serialize r.codecs ws) (with_outcome r e ws i d) in
          ground (arith, h, found, row_at-save_failed deployment_key r.gorm id d' s.deployments))
  ]

  pub running-operation_finished :
      (e : Option Error) (ws : TerraformWorkspace) (d : TerraformDeployment) (s : State r)
      → (operation_finished r e ws d s).1.running ≡ s.running
  unfolding operation_finished
  running-operation_finished e ws d s = elim (Result-cases (finished_instance r e ws)) [
    | inr (x, refused) ↦ ground (arith, refused)
    | inl (i, found) ↦ ground (arith, found)
  ]

  -- A read that succeeds reads the row.
  pub get_terraform_deployment_by_id_row :
      (id : String) (s : State r) (d : TerraformDeployment)
      → get_terraform_deployment_by_id r.gorm id s.deployments ≡ ok d
      → deployment_row id s ≡ some d
  unfolding get_terraform_deployment_by_id
  get_terraform_deployment_by_id_row id s d h =
      r.gorm.first_ok (has_key deployment_key id) s.deployments d h

  status_of_settled :
      (d : TerraformDeployment) (bad : Bool)
      → d.last_operation_state ≡ (if bad then failed else succeeded)
      → ((status_of r d).0.0 ≡ true) × (is_some (status_of r d).1 ≡ bad)
  unfolding status_of
  status_of_settled d false h =
      let e = (eq_iff d.last_operation_state succeeded).1 h in
      (ground (arith, e), ground (arith, e))
  status_of_settled d true h =
      let e : (d.last_operation_state == succeeded) ≡ false = rw h refl in
      let f = (eq_iff d.last_operation_state failed).1 h in
      (ground (arith, e, f), ground (arith, e, f))

  -- Once the end of a job is recorded, a poll that reads the deployment says that the job is done,
  -- and reports an error exactly if the job failed or its workspace cannot be stored.
  pub status-operation_finished :
      (e : Option Error) (ws : TerraformWorkspace) (d d' : TerraformDeployment) (s : State r)
      → (operation_finished r e ws d s).0 ≡ ok tt
      → let s' = (operation_finished r e ws d s).1 in
        get_terraform_deployment_by_id r.gorm d.id s'.deployments ≡ ok d'
        → ((status r d.id s').0.0 ≡ true)
          × (is_some (status r d.id s').1 ≡ (is_some e || not (is_ok (serialize r.codecs ws))))
  unfolding status
  status-operation_finished e ws d d' s h read =
      let s' = (operation_finished r e ws d s).1 in
      let (d2, shown, _, rows) = operation_finished_row e ws d s h in
      let row = get_terraform_deployment_by_id_row d.id s' d' read in
      let same : d' ≡ d2 = ground (arith, row, rows d.id, eq_refl d.id) in
      let (done, reported) =
        status_of_settled d' (is_some e || not (is_ok (serialize r.codecs ws))) (rw same shown) in
      (ground (arith, read, done), ground (arith, read, reported))

  -- Once the end of a job is recorded, the outputs that are read from the deployment are those of the
  -- workspace that the job has left, if a workspace that is stored can be read again.
  pub outputs-operation_finished :
      (e : Option Error) (ws : TerraformWorkspace) (d d' : TerraformDeployment) (s : State r)
      (text name : String)
      → (operation_finished r e ws d s).0 ≡ ok tt
      → serialize r.codecs ws ≡ ok text
      → deserialize_workspace r.codecs text ≡ ok ws
      → let s' = (operation_finished r e ws d s).1 in
        get_terraform_deployment_by_id r.gorm d.id s'.deployments ≡ ok d'
        → outputs r d.id name s' ≡ workspace_outputs r.codecs ws name
  unfolding outputs
  outputs-operation_finished e ws d d' s text name h encoded decoded read =
      let s' = (operation_finished r e ws d s).1 in
      let (d2, _, stored, rows) = operation_finished_row e ws d s h in
      let row = get_terraform_deployment_by_id_row d.id s' d' read in
      let same : d' ≡ d2 = ground (arith, row, rows d.id, eq_refl d.id) in
      let text_of : d'.workspace ≡ text = rw same (stored ∙ rw encoded refl) in
      ground (arith, read, decoded, text_of)
