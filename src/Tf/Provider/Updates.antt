-- ===== src/Tf/Provider/Updates.antt =====
-- What an update call of the Terraform provider starts.
use cloud_service_broker.Prelude.{◌≡◌, ap, refl, sym, ◌∙◌, inl, inr, Bool, true, false, arith}
use cloud_service_broker.Outcome.{ok, Result-cases}
use cloud_service_broker.Models.{ServiceInstanceDetails, update_operation_type}
use cloud_service_broker.Externals.{Externals}
use cloud_service_broker.VarContext.{VarContext, to_map}
use cloud_service_broker.Tf.JobRunner.{apply, TfJobRunner, State, update, reconfigure}
use cloud_service_broker.Tf.Definition.{TfServiceDefinitionV1, is_tf_import}
use cloud_service_broker.Tf.Provider.{tf_id_of, update_unless, update_instance, operation_details}
use cloud_service_broker.Tf.Provider.Started.{HasStarted, start-HasStarted}

module _ (x : Externals) (r : TfJobRunner) where
  update_unless_starts :
      (subsume : Bool) (vars : VarContext) (s : State r) (details : ServiceInstanceDetails)
      → (update_unless x r (subsume, vars) s).0 ≡ ok details
      → (subsume ≡ false)
        × (tf_id_of x vars ≡ ok details.operation_id)
        × (details ≡ operation_details details.operation_id update_operation_type)
        × HasStarted r apply details.operation_id s (update_unless x r (subsume, vars) s).1
  unfolding update_unless update
  update_unless_starts true vars s details h = absurd (ground (arith, h))
  update_unless_starts false vars s details h = elim (Result-cases (tf_id_of x vars)) [
    | inr (e, refused) ↦ absurd (ground (arith, h, refused))
    | inl (id, named) ↦ elim (Result-cases (update r id (to_map vars) s).0) [
      | inr (e, refused) ↦ absurd (ground (arith, h, named, refused))
      | inl (_, done) ↦
          (let same : operation_details id update_operation_type ≡ details =
              ground (arith, h, named, done) in
            let own : id ≡ details.operation_id = ap (λ d. d.operation_id) same in
            let left : (update_unless x r (false, vars) s).1 ≡ (update r id (to_map vars) s).1 =
              ground (arith, named, done) in
            (
              refl,
              ground (arith, named, own),
              sym same ∙ ap (λ i. operation_details i update_operation_type) own,
              rw own at (
                  rw (← left) at (
                    start-HasStarted r (reconfigure r (to_map vars)) apply update_operation_type id
                      s done)),
            ))
    ]
  ]

  -- An update call that returns has not been asked to subsume, names the `tf_id` of its variables as its
  -- operation, and has started an apply on the deployment of this id, which is in progress. The
  -- details that it returns have no plan.
  pub update_starts :
      (definition : TfServiceDefinitionV1) (vars : VarContext) (s : State r)
      (details : ServiceInstanceDetails)
      → (update_instance x r definition vars s).0 ≡ ok details
      → let found = is_tf_import x definition.provision_settings vars in
        (found.0 ≡ false)
        × (tf_id_of x found.1 ≡ ok details.operation_id)
        × (details ≡ operation_details details.operation_id update_operation_type)
        × HasStarted r apply details.operation_id s (update_instance x r definition vars s).1
  unfolding update_instance
  update_starts definition vars s details h =
      update_unless_starts (is_tf_import x definition.provision_settings vars).0
        (is_tf_import x definition.provision_settings vars).1 s details h
