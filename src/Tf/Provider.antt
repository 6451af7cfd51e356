-- ===== src/Tf/Provider.antt =====
-- pkg/providers/tf/provider.go, and the mixin of pkg/providers/builtin/base that it embeds: a service
-- provider on top of the job runner.
pub mod Imports
pub mod Started
pub mod Laws
pub mod Updates
pub mod Removal
pub mod Binding
pub mod Identity
use Prim.Native.String.{◌++◌ as append}
use cloud_service_broker.Prelude.{
  String, ℕ, Bool, true, false, Option, none, some, List, [], ◌∷◌, ◌++◌, map, length, nat_eq,
  if◌then◌else◌,
}
use cloud_service_broker.Prelude.StringMap.{lookup}
use cloud_service_broker.Outcome.{Error, Result, ok, err, multierror, plain, wrapped}
use cloud_service_broker.Outcome.Exec.{Exec, query, lift, pure, ◌>>=◌, ◌>>◌}
use cloud_service_broker.Json.{Object}
use cloud_service_broker.Models.{
  ServiceInstanceDetails, ServiceBindingCredentials, provision_operation_type,
  update_operation_type,
}
use cloud_service_broker.Externals.{Externals}
use cloud_service_broker.VarContext.{VarContext, get_string, to_map, error}
use cloud_service_broker.VarContext.Builder.{builder, merge_json_object, build}
use cloud_service_broker.VarContext.Builder
use cloud_service_broker.Service.Provider.{ServiceProvider, DeprovisionDetails}
use cloud_service_broker.Tf.Workspace.{ParameterMapping, TfTransformer, new_workspace}
use cloud_service_broker.Tf.JobRunner.{
  ImportResource, TfJobRunner, State, stage_job, import_resources, create, update, destroy_job,
  status, outputs,
}
use cloud_service_broker.Tf.JobRunner.Wait.{Tick, wait, state_after}
use cloud_service_broker.Tf.Definition.{
  ImportVariable, ImportParameterMapping, TfServiceDefinitionV1Action, TfServiceDefinitionV1,
  is_tf_import, generate_tf_id,
}

abbrev pub default_instance_name : String
default_instance_name = "instance"

-- The zero value, with an operation.
abbrev pub operation_details : String → String → ServiceInstanceDetails
operation_details tf_id operation_type = record {
  id = "";
  name = "";
  location = "";
  url = "";
  other_details = "";
  service_id = "";
  plan_id = "";
  space_guid = "";
  organization_guid = "";
  operation_type = operation_type;
  operation_id = tf_id;
}

unfoldable pub mapping_of : ImportParameterMapping → ParameterMapping
mapping_of m = record { tf_variable = m.tf_variable; parameter_name = m.parameter_name }

unfoldable pub import_transformer : TfServiceDefinitionV1Action → TfTransformer
unfolding mapping_of
import_transformer action = record {
  parameter_mappings = map mapping_of action.import_parameter_mappings;
  parameters_to_remove = action.import_parameters_to_delete;
  parameters_to_add = map mapping_of action.import_parameters_to_add;
}

abbrev pub import_fields : List ImportVariable → String
import_fields [] = ""
import_fields (v ∷ []) = v.name
import_fields (v ∷ w ∷ vs) = append v.name (append ", " (import_fields (w ∷ vs)))

abbrev pub untransformed : TfTransformer
untransformed = record {
  parameter_mappings = [];
  parameters_to_remove = [];
  parameters_to_add = [];
}

abbrev pub cannot_update : Error
cannot_update =
    plain
      "Cannot update to subsume plan\n\nFor OpsMan Tile users see documentation here: https://via.vmw.com/ENs4\n\nFor Open Source users deployed via 'cf push' see documentation here:  https://via.vmw.com/ENw4"

unfoldable pub error_of : List Error → Result (Unit {0})
error_of [] = ok tt
error_of (e ∷ es) = err (multierror e es)

unfoldable pub all_given : List ImportVariable → List ImportResource → Result (Unit {0})
all_given variables given =
    if nat_eq (length given) (length variables)
    then ok tt
    else err (
        wrapped "Must provide values for all import parameters: " (plain (import_fields variables))
          "")

module _ (x : Externals) where
  -- `GetString("tf_id")` and `Error()`
  unfoldable pub tf_id_of : VarContext → Result String
  unfolding error_of
  tf_id_of vars =
      let (tf_id, vars') = get_string x "tf_id" vars in
      elim (error_of (error vars')) [ err e ↦ err e | ok _ ↦ ok tf_id ]

  -- `BuildInstanceCredentials` of `MergedInstanceCredsMixin`
  unfoldable pub build_instance_credentials :
      ServiceBindingCredentials → ServiceInstanceDetails → Result Object
  build_instance_credentials bind_record instance_record =
      elim (build (
        merge_json_object x bind_record.other_details
          (merge_json_object x instance_record.other_details builder))) [
            | err e ↦ err e
            | ok vc ↦ ok (to_map vc)
          ]

  -- `SetOtherDetails`
  unfoldable pub set_other_details : Object → ServiceInstanceDetails → Result ServiceInstanceDetails
  set_other_details to_set si = elim (x.marshal_object to_set) [
    | err e ↦ err e
    | ok out ↦ ok (record si { other_details = out })
  ]

module _ (r : TfJobRunner) where
  unfoldable pub import_params : List ImportVariable → Object → List ImportResource
  import_params [] vars_map = []
  import_params (v ∷ vs) vars_map = elim (lookup v.name vars_map) [
    | none ↦ import_params vs vars_map
    | some param ↦
        record { tf_resource = v.tf_resource; iaas_resource = r.codecs.print_value param }
        ∷ import_params vs vars_map
  ]

  unfoldable pub polled : (Bool × String) × Option Error → Result (Bool × String)
  polled (answer, none) = ok answer
  polled (answer, some e) = err e

  unfoldable pub deprovision :
      ServiceInstanceDetails → DeprovisionDetails → VarContext → Exec (State r) (Option String)
  deprovision instance' details vc =
      let tf_id = generate_tf_id instance'.id "" in
      do destroy_job r tf_id (to_map vc); pure (some tf_id)

  unfoldable pub poll_instance : ServiceInstanceDetails → Exec (State r) (Bool × String)
  unfolding polled
  poll_instance instance' = query (λ s. polled (status r (generate_tf_id instance'.id "") s))

module _ (x : Externals) (r : TfJobRunner) where
  unfoldable pub create_job : VarContext → TfServiceDefinitionV1Action → Exec (State r) String
  create_job vars action = do
    tf_id ← lift (tf_id_of x vars)
    workspace ←
        lift (new_workspace r.codecs (to_map vars) action.template action.templates untransformed)
    stage_job r tf_id workspace
    create r tf_id
    pure tf_id

  unfoldable pub import_create : VarContext → TfServiceDefinitionV1Action → Exec (State r) String
  unfolding import_params all_given
  import_create vars action =
      let given = import_params r action.import_variables (to_map vars) in
      do
        complete ← lift (all_given action.import_variables given)
        tf_id ← lift (tf_id_of x vars)
        workspace ←
            lift
              (new_workspace r.codecs (to_map vars) "" action.templates (import_transformer action))
        stage_job r tf_id workspace
        import_resources r tf_id given
        pure tf_id

  -- An import if the plan subsumes a resource.
  unfoldable pub create_or_import :
      TfServiceDefinitionV1Action → Bool × VarContext → Exec (State r) String
  create_or_import action (true, vars) = import_create vars action
  create_or_import action (false, vars) = create_job vars action

  unfoldable pub provision :
      TfServiceDefinitionV1 → VarContext → Exec (State r) ServiceInstanceDetails
  provision definition vars = do
    tf_id ←
        create_or_import definition.provision_settings
          (is_tf_import x definition.provision_settings vars)
    pure (operation_details tf_id provision_operation_type)

  update_unless : Bool × VarContext → Exec (State r) ServiceInstanceDetails
  update_unless (true, vars) = lift (err cannot_update)
  update_unless (false, vars) = do
    tf_id ← lift (tf_id_of x vars)
    update r tf_id (to_map vars)
    pure (operation_details tf_id update_operation_type)

  unfoldable pub update_instance :
      TfServiceDefinitionV1 → VarContext → Exec (State r) ServiceInstanceDetails
  unfolding update_unless
  update_instance definition vars =
      update_unless (is_tf_import x definition.provision_settings vars)

  unfoldable pub update_instance_details :
      ServiceInstanceDetails → Exec (State r) ServiceInstanceDetails
  update_instance_details instance' = do
    outs ← query (λ s. outputs r (generate_tf_id instance'.id "") default_instance_name s)
    lift (set_other_details x outs instance')

-- `ticks s id` is what the clock and the goroutines do to the table after the state `s`, while a call
-- waits for the job `id`.
module _ (r : TfJobRunner) (ticks : State r → String → List (Tick r)) where
  -- `Wait`; an error where the ticks end before it returns.
  unfoldable pub wait_for : String → Exec (State r) (Unit {0})
  wait_for id s = elim (wait r (ticks s id) id) [
    | none ↦ (err (plain "still waiting"), s)
    | some none ↦ (ok tt, state_after r (ticks s id) id s)
    | some (some e) ↦ (err e, state_after r (ticks s id) id s)
  ]

  unfoldable pub unbind :
      ServiceInstanceDetails → ServiceBindingCredentials → VarContext → Exec (State r) (Unit {0})
  unbind instance_record bind_record vc =
      let tf_id = generate_tf_id instance_record.id bind_record.binding_id in
      do destroy_job r tf_id (to_map vc); wait_for tf_id

module _ (x : Externals) (r : TfJobRunner) (ticks : State r → String → List (Tick r)) where
  unfoldable pub bind : TfServiceDefinitionV1 → VarContext → Exec (State r) Object
  bind definition vars = do
    tf_id ← create_job x r vars definition.bind_settings
    wait_for r ticks tf_id
    query (λ s. outputs r tf_id default_instance_name s)

  unfoldable pub new_terraform_provider : TfServiceDefinitionV1 → ServiceProvider (State r)
  new_terraform_provider definition = record {
    provision = provision x r definition;
    update = update_instance x r definition;
    bind = bind definition;
    build_instance_credentials = λ b i. lift (build_instance_credentials x b i);
    unbind = unbind r ticks;
    deprovision = deprovision r;
    poll_instance = poll_instance r;
    provisions_async = true;
    deprovisions_async = true;
    update_instance_details = update_instance_details x r;
  }
