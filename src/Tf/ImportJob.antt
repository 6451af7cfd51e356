-- ===== src/Tf/ImportJob.antt =====
-- The goroutine of `TfJobRunner.Import`: the commands that it runs, and the definition that it writes.
pub mod Laws
use cloud_service_broker.Prelude.{String, none, some, List, [], ◌∷◌}
use cloud_service_broker.Prelude.StringMap.{StringMap, insert}
use cloud_service_broker.Outcome.{Result, ok, err, ◌>>=◌, plain}
use cloud_service_broker.Json.{text, Object}
use cloud_service_broker.Tf.Module.{ModuleDefinition}
use cloud_service_broker.Tf.Workspace.{TerraformWorkspace, ModuleInstance, TfTransformer}
use cloud_service_broker.Tf.JobRunner.{ImportResource}
use cloud_service_broker.Tf.Shell.{System, Session, Run}
use cloud_service_broker.Tf.Shell
use cloud_service_broker.Tf.Shell.Commands.{import_all, show, apply}
use cloud_service_broker.Tf.Transformer.{
  Texts, clean_tf, add_parameters_in_tf, replace_parameters_in_tf,
}

-- A resource that is given twice has its last id.
unfoldable pub resource_map : List ImportResource → StringMap String → StringMap String
resource_map [] resources = resources
resource_map (r ∷ rs) resources = resource_map rs (insert r.tf_resource r.iaas_resource resources)

unfoldable pub set_values : StringMap String → Object → Object
set_values [] configuration = configuration
set_values ((pn, pv) ∷ values) configuration = set_values values (insert pn (text pv) configuration)

-- The first instance is looked for when there is a value to set. An index out of range is an error here.
unfoldable pub with_values : StringMap String → List ModuleInstance → Result (List ModuleInstance)
unfolding set_values
with_values [] instances = ok instances
with_values (v ∷ values) [] = err (plain "index out of range")
with_values (v ∷ values) (i ∷ instances) =
    ok (record i { configuration = set_values (v ∷ values) i.configuration } ∷ instances)

unfoldable pub with_main : String → List ModuleDefinition → Result (List ModuleDefinition)
with_main tf [] = err (plain "index out of range")
with_main tf (m ∷ modules) =
    ok (record m { definitions = insert "main" tf m.definitions } ∷ modules)

unfoldable pub with_import :
    String → StringMap String → TerraformWorkspace → Result TerraformWorkspace
unfolding with_values with_main
with_import tf values ws = do
  instances ← with_values values ws.instances
  modules ← with_main tf ws.modules
  ok (record ws { instances = instances; modules = modules })

unfoldable pub transformed : Texts → TfTransformer → String → Result (String × StringMap String)
transformed x ttf main_tf = do
  cleaned ← clean_tf x ttf main_tf
  added ← add_parameters_in_tf x ttf cleaned
  ok (replace_parameters_in_tf x ttf added)

unfoldable pub imported : Texts → String → TerraformWorkspace → Result TerraformWorkspace
unfolding transformed with_import
imported x main_tf ws = do
  (tf, values) ← transformed x ws.transformer main_tf
  with_import tf values ws

module _ (sys : System) (x : Texts) where
  unfoldable pub rewrite_main : String → Run sys (Unit {0})
  unfolding imported
  rewrite_main main_tf s = elim (imported x main_tf s.workspace) [
    | err e ↦ some (err e, s)
    | ok ws ↦ some (ok tt, record s { workspace = ws })
  ]

  -- Its error goes to `operationFinished`, with the workspace as it is then.
  unfoldable pub import_job : List ImportResource → Run sys (Unit {0})
  unfolding rewrite_main resource_map
  import_job resources =
      Shell.◌>>◌ (import_all sys (resource_map resources []))
        (Shell.◌>>=◌ (show sys) (λ main_tf. Shell.◌>>◌ (rewrite_main main_tf) (apply sys)))
