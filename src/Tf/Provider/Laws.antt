-- ===== src/Tf/Provider/Laws.antt =====
-- What the provision calls of the Terraform provider start.
use cloud_service_broker.Prelude.{
  ◌≡◌, ap, refl, sym, ◌∙◌, inl, inr, String, Bool, true, false, List, arith,
}
use cloud_service_broker.Outcome.{ok, Result-cases}
use cloud_service_broker.Models.{ServiceInstanceDetails, provision_operation_type}
use cloud_service_broker.Externals.{Externals}
use cloud_service_broker.VarContext.{VarContext, to_map}
use cloud_service_broker.Tf.Workspace.{TerraformWorkspace, new_workspace}
use cloud_service_broker.Tf.JobRunner.{
  ImportResource, Task, apply, import', TfJobRunner, State, stage_job, import_resources, create,
}
use cloud_service_broker.Tf.Definition.{
  TfServiceDefinitionV1, TfServiceDefinitionV1Action, is_tf_import,
}
use cloud_service_broker.Json.{Object}
use cloud_service_broker.Tf.Provider.Imports.{AreImported, all_given-AreImported}
use cloud_service_broker.Tf.Provider.{
  untransformed, import_transformer, import_params, all_given, create_or_import, tf_id_of,
  create_job, import_create, provision, operation_details,
}
use cloud_service_broker.Tf.Provider.Started.{HasStarted, start-HasStarted, HasStarted-stage_job}

module _ (x : Externals) (r : TfJobRunner) where
  create_job_starts :
      (vars : VarContext) (action : TfServiceDefinitionV1Action) (s : State r) (id : String)
      → (create_job x r vars action s).0 ≡ ok id
      → (ws : TerraformWorkspace) × (tf_id_of x vars ≡ ok id)
        × ((create r id (stage_job r id ws s).1).0 ≡ ok tt)
        × ((create_job x r vars action s).1 ≡ (create r id (stage_job r id ws s).1).1)
  unfolding create_job
  create_job_starts vars action s id h = elim (Result-cases (tf_id_of x vars)) [
    | inr (e, refused) ↦ absurd (ground (arith, h, refused))
    | inl (id', named) ↦
        elim (Result-cases
          (new_workspace r.codecs (to_map vars) action.template action.templates untransformed)) [
            | inr (e, refused) ↦ absurd (ground (arith, h, named, refused))
            | inl (ws, made) ↦ elim (Result-cases (stage_job r id' ws s).0) [
              | inr (e, refused) ↦ absurd (ground (arith, h, named, made, refused))
              | inl (_, staged) ↦
                  (let t = (stage_job r id' ws s).1 in
                    elim (Result-cases (create r id' t).0) [
                      | inr (e, refused) ↦ absurd (ground (arith, h, named, made, staged, refused))
                      | inl (_, made') ↦
                          (let same : id' ≡ id = ground (arith, h, named, made, staged, made') in
                            (
                              ws,
                              ground (arith, named, same),
                              rw (← same) made',
                              rw (← same) (ground (arith, h, named, made, staged, made')),
                            ))
                    ])
            ]
          ]
  ]

  import_create_starts :
      (vars : VarContext) (action : TfServiceDefinitionV1Action) (s : State r) (id : String)
      → (import_create x r vars action s).0 ≡ ok id
      → let given = import_params r action.import_variables (to_map vars) in
        (ws : TerraformWorkspace) × (all_given action.import_variables given ≡ ok tt)
        × (tf_id_of x vars ≡ ok id)
        × ((import_resources r id given (stage_job r id ws s).1).0 ≡ ok tt)
        × ((import_create x r vars action s).1
            ≡ (import_resources r id given (stage_job r id ws s).1).1)
  unfolding import_create
  import_create_starts vars action s id h =
      let given = import_params r action.import_variables (to_map vars) in
      elim (Result-cases (all_given action.import_variables given)) [
        | inr (e, refused) ↦ absurd (ground (arith, h, refused))
        | inl (_, complete) ↦ elim (Result-cases (tf_id_of x vars)) [
          | inr (e, refused) ↦ absurd (ground (arith, h, complete, refused))
          | inl (id', named) ↦
              elim (Result-cases (
                new_workspace r.codecs (to_map vars) "" action.templates
                  (import_transformer action))) [
                    | inr (e, refused) ↦ absurd (ground (arith, h, complete, named, refused))
                    | inl (ws, made) ↦ elim (Result-cases (stage_job r id' ws s).0) [
                      | inr (e, refused) ↦
                          absurd (ground (arith, h, complete, named, made, refused))
                      | inl (_, staged) ↦
                          (let t = (stage_job r id' ws s).1 in
                            elim (Result-cases (import_resources r id' given t).0) [
                              | inr (e, refused) ↦
                                  absurd (ground (arith, h, complete, named, made, staged, refused))
                              | inl (_, done) ↦
                                  (let same : id' ≡ id =
                                      ground (arith, h, complete, named, made, staged, done) in
                                    (
                                      ws,
                                      complete,
                                      ground (arith, named, same),
                                      rw (← same) done,
                                      rw (← same)
                                          (ground (arith, h, complete, named, made, staged, done)),
                                    ))
                            ])
                    ]
                  ]
        ]
      ]

  pub created_HasStarted :
      (vars : VarContext) (action : TfServiceDefinitionV1Action) (s : State r) (id : String)
      → (create_job x r vars action s).0 ≡ ok id
      → (tf_id_of x vars ≡ ok id) × HasStarted r apply id s (create_job x r vars action s).1
  unfolding create
  created_HasStarted vars action s id h =
      let (ws, named, done, same) = create_job_starts vars action s id h in
      let t = (stage_job r id ws s).1 in
      (
        named,
        rw same (
            HasStarted-stage_job r apply id id ws s (create r id t).1
              (start-HasStarted r ok apply provision_operation_type id t done)),
      )

  imported_HasStarted :
      (vars : VarContext) (action : TfServiceDefinitionV1Action) (s : State r) (id : String)
      → (import_create x r vars action s).0 ≡ ok id
      → (tf_id_of x vars ≡ ok id)
        × AreImported r action.import_variables
            (to_map vars)
            (import_params r action.import_variables (to_map vars))
        × HasStarted r
            (import' (import_params r action.import_variables (to_map vars)))
            id
            s
            (import_create x r vars action s).1
  unfolding import_resources
  imported_HasStarted vars action s id h =
      let given = import_params r action.import_variables (to_map vars) in
      let (ws, complete, named, done, same) = import_create_starts vars action s id h in
      let t = (stage_job r id ws s).1 in
      (
        named,
        all_given-AreImported r action.import_variables (to_map vars) complete,
        rw same (
            HasStarted-stage_job r (import' given) id id ws s (import_resources r id given t).1
              (start-HasStarted r ok (import' given) provision_operation_type id t done)),
      )

  -- The task that a provision call starts.
  abbrev pub IsProvisionTask : TfServiceDefinitionV1Action → Bool → Object → Task → Type 0
  IsProvisionTask action false vars task = task ≡ apply
  IsProvisionTask action true vars task =
      (given : List ImportResource) × (task ≡ import' given)
      × AreImported r action.import_variables vars given

  create_or_import-HasStarted :
      (action : TfServiceDefinitionV1Action) (subsume : Bool) (vars : VarContext) (s : State r)
      (id : String)
      → (create_or_import x r action (subsume, vars) s).0 ≡ ok id
      → (tf_id_of x vars ≡ ok id)
        × ((task : Task) × IsProvisionTask action subsume vars.context task
            × HasStarted r task id s (create_or_import x r action (subsume, vars) s).1)
  unfolding create_or_import to_map
  create_or_import-HasStarted action true vars s id h =
      let given = import_params r action.import_variables vars.context in
      let (named, all, started) = imported_HasStarted vars action s id h in
      (named, (import' given, (given, refl, all), started))
  create_or_import-HasStarted action false vars s id h =
      let (named, started) = created_HasStarted vars action s id h in
      (named, (apply, refl, started))

  -- A provision call that returns names as its operation the `tf_id` of its variables, has stored a
  -- deployment under this id that is in progress, and has started one goroutine on it and no other: an
  -- apply, or, if the plan subsumes a resource, an import of one resource for each import variable of
  -- the definition, in their order, with the value that the variables of the request give it.
  pub provision_starts :
      (definition : TfServiceDefinitionV1) (vars : VarContext) (s : State r)
      (details : ServiceInstanceDetails)
      → (provision x r definition vars s).0 ≡ ok details
      → let found = is_tf_import x definition.provision_settings vars in
        (details ≡ operation_details details.operation_id provision_operation_type)
        × (tf_id_of x found.1 ≡ ok details.operation_id)
        × ((task : Task) × IsProvisionTask definition.provision_settings found.0 found.1.context
              task
            × HasStarted r task details.operation_id s (provision x r definition vars s).1)
  unfolding provision
  provision_starts definition vars s details h =
      let action = definition.provision_settings in
      let found = is_tf_import x action vars in
      elim (Result-cases (create_or_import x r action found s).0) [
        | inr (e, refused) ↦ absurd (ground (arith, h, refused))
        | inl (id, done) ↦
            (let same : operation_details id provision_operation_type ≡ details =
                ground (arith, h, done) in
              let own : id ≡ details.operation_id = ap (λ d. d.operation_id) same in
              let left : (provision x r definition vars s).1
                  ≡ (create_or_import x r action found s).1 =
                ground (arith, done) in
              let (named, (task, kind, started)) =
                create_or_import-HasStarted action found.0 found.1 s id done in
              (
                sym same ∙ ap (λ i. operation_details i provision_operation_type) own,
                ground (arith, named, own),
                (task, kind, rw own at (rw (← left) at started)),
              ))
      ]
