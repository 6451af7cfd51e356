-- ===== src/Tf/Provider/Identity.antt =====
-- The Terraform provider changes no identifier of an instance.
use cloud_service_broker.Prelude.{◌≡◌, ap, sym, inl, inr, String, List, arith}
use cloud_service_broker.Outcome.{Result-cases}
use cloud_service_broker.Externals.{Externals}
use cloud_service_broker.Broker.Refinement.{KeepsIdentity}
use cloud_service_broker.Tf.JobRunner.{TfJobRunner, State, outputs}
use cloud_service_broker.Tf.JobRunner.Wait.{Tick}
use cloud_service_broker.Tf.Definition.{TfServiceDefinitionV1, generate_tf_id}
use cloud_service_broker.Tf.Provider.{
  update_instance_details, set_other_details, new_terraform_provider, default_instance_name,
}

module _ (x : Externals) (r : TfJobRunner) (ticks : State r → String → List (Tick r)) where
  -- The details that the Terraform provider gives back differ at most in the outputs that they hold.
  pub terraform-KeepsIdentity :
      (definition : TfServiceDefinitionV1)
      → KeepsIdentity (new_terraform_provider x r ticks definition)
  unfolding new_terraform_provider update_instance_details set_other_details
  terraform-KeepsIdentity definition d new s h =
      elim (Result-cases (outputs r (generate_tf_id d.id "") default_instance_name s)) [
        | inr (e, refused) ↦ absurd (ground (arith, h, refused))
        | inl (outs, read) ↦ elim (Result-cases (x.marshal_object outs)) [
          | inr (e, refused) ↦ absurd (ground (arith, h, read, refused))
          | inl (text, encoded) ↦
              (let same : record d { other_details = text } ≡ new =
                  ground (arith, h, read, encoded) in
                (sym (ap (λ i. i.id) same), sym (ap (λ i. i.service_id) same)))
        ]
      ]
