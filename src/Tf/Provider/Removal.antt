-- ===== src/Tf/Provider/Removal.antt =====
-- Removals by the Terraform provider, and the polls that follow them.
use cloud_service_broker.Prelude.{◌≡◌, inl, inr, String, true, false, Option, none, some, arith}
use cloud_service_broker.Outcome.{ok, Result-cases}
use cloud_service_broker.Models.{
  ServiceInstanceDetails, TerraformDeployment, deprovision_operation_type,
}
use cloud_service_broker.VarContext.{VarContext, to_map}
use cloud_service_broker.Dao.Deployments.{get_terraform_deployment_by_id}
use cloud_service_broker.Service.Provider.{DeprovisionDetails}
use cloud_service_broker.Tf.JobRunner.{
  TfJobRunner, State, destroy, destroy_job, reconfigure, status,
}
use cloud_service_broker.Tf.JobRunner.Starts.{status-start}
use cloud_service_broker.Tf.Definition.{generate_tf_id}
use cloud_service_broker.Tf.Provider.{deprovision, polled, poll_instance}
use cloud_service_broker.Tf.Provider.Started.{HasStarted, start-HasStarted}

module _ (r : TfJobRunner) where
  -- A deprovision call that returns names its operation after the instance, and has started a destroy on
  -- the deployment of this id, which is in progress.
  pub deprovision_starts :
      (instance' : ServiceInstanceDetails) (details : DeprovisionDetails) (vars : VarContext)
      (s : State r) (operation : Option String)
      → (deprovision r instance' details vars s).0 ≡ ok operation
      → (operation ≡ some (generate_tf_id instance'.id ""))
        × HasStarted r destroy
            (generate_tf_id instance'.id "")
            s
            (deprovision r instance' details vars s).1
  unfolding deprovision destroy_job
  deprovision_starts instance' details vars s operation h =
      let id = generate_tf_id instance'.id "" in
      let left : (destroy_job r id (to_map vars) s).0 ≡ ok tt
          → (deprovision r instance' details vars s).1 ≡ (destroy_job r id (to_map vars) s).1 =
        λ done. ground (arith, done) in
      elim (Result-cases (destroy_job r id (to_map vars) s).0) [
        | inr (e, refused) ↦ absurd (ground (arith, h, refused))
        | inl (_, done) ↦ (
          ground (arith, h, done),
          rw (left done) (
              start-HasStarted r (reconfigure r (to_map vars)) destroy deprovision_operation_type id
                s done),
        )
      ]

  -- After a deprovision call that returns, a poll of the instance that reads its deployment says that
  -- the operation is not done.
  pub poll-deprovision :
      (instance' : ServiceInstanceDetails) (details : DeprovisionDetails) (vars : VarContext)
      (s : State r) (operation : Option String) (d : TerraformDeployment)
      → (deprovision r instance' details vars s).0 ≡ ok operation
      → let s' = (deprovision r instance' details vars s).1 in
        get_terraform_deployment_by_id r.gorm (generate_tf_id instance'.id "") s'.deployments ≡ ok d
        → poll_instance r instance' s' ≡ (ok (false, ""), s')
  unfolding deprovision destroy_job poll_instance
  poll-deprovision instance' details vars s operation d h read =
      let id = generate_tf_id instance'.id "" in
      elim (Result-cases (destroy_job r id (to_map vars) s).0) [
        | inr (e, refused) ↦ absurd (ground (arith, h, refused))
        | inl (_, done) ↦ ground (
          arith,
          done,
          status-start r (reconfigure r (to_map vars)) destroy deprovision_operation_type id s d
              done (ground (arith, read, done)),
        )
      ]

  -- A poll of an instance whose deployment is done without an error says so.
  pub poll_done :
      (instance' : ServiceInstanceDetails) (s : State r)
      → (status r (generate_tf_id instance'.id "") s).0.0 ≡ true
      → (status r (generate_tf_id instance'.id "") s).1 ≡ none
      → (poll_instance r instance' s).0
        ≡ ok (true, (status r (generate_tf_id instance'.id "") s).0.1)
  unfolding poll_instance polled
  poll_done instance' s over clean = ground (arith, over, clean)
