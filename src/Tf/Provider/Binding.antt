-- ===== src/Tf/Provider/Binding.antt =====
-- Bindings by the Terraform provider, which wait for their job.
use mathlib.Core.List.{Memᴰ}
use cloud_service_broker.Prelude.{
  ◌≡◌, ◌⊎◌, inl, inr, String, true, none, some, List, arith, Option-cases,
}
use cloud_service_broker.Outcome.{ok, Result-cases}
use cloud_service_broker.Json.{Object}
use cloud_service_broker.Externals.{Externals}
use cloud_service_broker.VarContext.{VarContext}
use cloud_service_broker.Tf.JobRunner.{TfJobRunner, State, apply, status, outputs}
use cloud_service_broker.Tf.JobRunner.Wait.{Tick, cancelled, second, wait, wait_sound, state_after}
use cloud_service_broker.Tf.Definition.{TfServiceDefinitionV1}
use cloud_service_broker.Tf.Provider.{tf_id_of, create_job, bind, wait_for, default_instance_name}
use cloud_service_broker.Tf.Provider.Started.{HasStarted}
use cloud_service_broker.Tf.Provider.Laws.{created_HasStarted}

module _ (r : TfJobRunner) (ticks : State r → String → List (Tick r)) where
  wait_for_inverse :
      (id : String) (s : State r)
      → (wait_for r ticks id s).0 ≡ ok tt
      → (wait r (ticks s id) id ≡ some none)
        × ((wait_for r ticks id s).1 ≡ state_after r (ticks s id) id s)
  unfolding wait_for
  wait_for_inverse id s h = elim (Option-cases (wait r (ticks s id) id)) [
    | inl never ↦ absurd (ground (arith, h, never))
    | inr (none, over) ↦ (over, ground (arith, over))
    | inr (some e, over) ↦ absurd (ground (arith, h, over))
  ]

module _ (x : Externals) (r : TfJobRunner) (ticks : State r → String → List (Tick r)) where
  -- A bind call that returns has started one job, an apply on the deployment `tf_id` of its variables,
  -- and has then waited until the job was done without an error or the call was cancelled. Its
  -- credentials are the outputs of that deployment as the table was at the end of the wait.
  pub bind_waits :
      (definition : TfServiceDefinitionV1) (vars : VarContext) (s : State r) (out : Object)
      → (bind x r ticks definition vars s).0 ≡ ok out
      → (id : String) × (s' : State r) × (tf_id_of x vars ≡ ok id)
        × HasStarted r apply id s s'
        × (outputs r id default_instance_name (state_after r (ticks s' id) id s') ≡ ok out)
        × (Memᴰ cancelled (ticks s' id)
            ⊎ ((t : State r) × Memᴰ (second t) (ticks s' id)
                × ((status r id t).0.0 ≡ true)
                × ((status r id t).1 ≡ none)))
  unfolding bind
  bind_waits definition vars s out h =
      let action = definition.bind_settings in
      elim (Result-cases (create_job x r vars action s).0) [
        | inr (e, refused) ↦ absurd (ground (arith, h, refused))
        | inl (id, made) ↦
            (let s' = (create_job x r vars action s).1 in
              let (named, started) = created_HasStarted x r vars action s id made in
              elim (Result-cases (wait_for r ticks id s').0) [
                | inr (e, refused) ↦ absurd (ground (arith, h, made, refused))
                | inl (_, waited) ↦
                    (let (over, left) = wait_for_inverse r ticks id s' waited in
                      (
                        id,
                        s',
                        named,
                        started,
                        ground (arith, h, made, waited, left),
                        wait_sound r (ticks s' id) id over,
                      ))
              ])
      ]
