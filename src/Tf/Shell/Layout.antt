-- ===== src/Tf/Shell/Layout.antt =====
-- What a workspace writes to its directory before Terraform runs there.
use Prim.Native.String.{◌++◌ as append}
use cloud_service_broker.Prelude.{
  String, Bool, true, false, not, ◌&&◌, ◌||◌, ◌==◌, none, some, List, [], ◌∷◌, if◌then◌else◌,
}
use cloud_service_broker.Prelude.StringMap.{StringMap, lookup, insert}
use cloud_service_broker.Outcome.{ok, err, plain}
use cloud_service_broker.Json.{text, object, Object, to_fields}
use cloud_service_broker.Tf.Module.{ModuleDefinition, outputs}
use cloud_service_broker.Tf.Workspace.{TerraformWorkspace, ModuleInstance}
use cloud_service_broker.Tf.Shell.{
  System, Session, Run, return, ◌>>=◌, ◌>>◌, on_disk, lift, ExecutionOutput,
}

-- `MarshalDefinition` of instance.go, before it is encoded.
output_map : String → List String → Object
output_map instance_name [] = []
output_map instance_name (variable ∷ variables) =
    insert variable
      (object (
        to_fields (
          (
            "value",
            text (append "${module." (append instance_name (append "." (append variable "}")))),
          )
          ∷ [])))
      (output_map instance_name variables)

unfoldable pub definition_of : ModuleInstance → List String → Object
unfolding output_map
definition_of instance' outs =
    let config =
      insert "source" (text (append "./" instance'.module_name)) instance'.configuration in
    let defn : Object =
      ("module", object (to_fields ((instance'.instance_name, object (to_fields config)) ∷ [])))
      ∷ [] in
    elim (output_map instance'.instance_name outs) [
      | [] ↦ defn
      | o ∷ os ↦ insert "output" (object (to_fields (o ∷ os))) defn
    ]

-- `terraformLen > 0`, with the lengths of all definitions.
any_text : StringMap String → Bool
any_text [] = false
any_text ((_, d) ∷ ds) = not (d == "") || any_text ds

unfoldable pub has_terraform : List ModuleDefinition → Bool
unfolding any_text
has_terraform [] = false
has_terraform (m ∷ ms) = not (m.definition == "") || (any_text m.definitions || has_terraform ms)

-- One module without a definition of its own, and with definitions.
unfoldable pub is_flat : List ModuleDefinition → Bool
unfolding has_terraform
is_flat (m ∷ []) = m.definition == "" && has_terraform (m ∷ [])
is_flat _ = false

module _ (sys : System) where
  unfoldable pub write_definitions : String → StringMap String → Run sys (Unit {0})
  write_definitions dir [] = return tt
  write_definitions dir ((name, tf) ∷ definitions) =
      on_disk (sys.write_file (sys.join_path dir (append name ".tf")) tf)
      >> write_definitions dir definitions

  unfoldable pub write_variables : String → ModuleInstance → Run sys (Unit {0})
  write_variables dir instance' = lift (sys.marshal_indent instance'.configuration) >>= λ variables.
      on_disk (sys.write_file (sys.join_path dir "terraform.tfvars.json") variables)

  -- `initializedFsFlat`, in the directory
  unfoldable pub initialized_fs_flat :
      String → List ModuleDefinition → List ModuleInstance → Run sys (Unit {0})
  unfolding write_definitions write_variables
  initialized_fs_flat dir (module' ∷ []) (instance' ∷ []) =
      write_definitions dir module'.definitions >> write_variables dir instance'
  initialized_fs_flat dir (module' ∷ []) _ =
      lift (err (plain "Cannot build flat terraform workspace with multiple instances"))
  initialized_fs_flat dir _ _ =
      lift (err (plain "Cannot build flat terraform workspace with multiple modules"))

  unfoldable pub write_definition : String → String → Run sys (Unit {0})
  write_definition parent definition =
      if definition == ""
      then return tt
      else on_disk (sys.write_file (sys.join_path parent "definition.tf") definition)

  unfoldable pub write_module : String → ModuleDefinition → Run sys (List String)
  unfolding write_definitions write_definition
  write_module dir module' =
      let parent = sys.join_path dir module'.name in
      on_disk (sys.mkdir parent)
      >> (write_definition parent module'.definition
          >> (write_definitions parent module'.definitions >> lift (outputs sys.parse_hcl module')))

  unfoldable pub write_modules :
      String → List ModuleDefinition → StringMap (List String) → Run sys (StringMap (List String))
  unfolding write_module
  write_modules dir [] outs = return outs
  write_modules dir (module' ∷ modules) outs = write_module dir module' >>= λ found.
      write_modules dir modules (insert module'.name found outs)

  outputs_of : String → StringMap (List String) → List String
  outputs_of name outs = elim (lookup name outs) [ none ↦ [] | some found ↦ found ]

  unfoldable pub write_instance :
      String → StringMap (List String) → ModuleInstance → Run sys (Unit {0})
  unfolding outputs_of
  write_instance dir outs instance' =
      lift (sys.marshal (definition_of instance' (outputs_of instance'.module_name outs)))
      >>= λ contents.
          on_disk (
            sys.write_file (sys.join_path dir (append instance'.instance_name ".tf.json")) contents)

  unfoldable pub write_instances :
      String → List ModuleInstance → StringMap (List String) → Run sys (Unit {0})
  unfolding write_instance
  write_instances dir [] outs = return tt
  write_instances dir (instance' ∷ instances) outs =
      write_instance dir outs instance' >> write_instances dir instances outs

  -- `initializeFsModules`
  unfoldable pub initialize_fs_modules :
      String → List ModuleDefinition → List ModuleInstance → Run sys (Unit {0})
  unfolding write_modules write_instances
  initialize_fs_modules dir modules instances =
      write_modules dir modules [] >>= λ outs. write_instances dir instances outs

  unfoldable pub tf_state_path : Session sys → String
  tf_state_path s = sys.join_path s.dir "terraform.tfstate"

  -- `runTf`, with the sub-command first
  unfoldable pub run_tf : List String → Run sys ExecutionOutput
  run_tf args s =
      on_disk
        (sys.execute (record {
          path = "terraform";
          args = "terraform" ∷ args;
          env = sys.environ;
          dir = s.dir;
        }))
        s

  unfoldable pub write_state : String → String → Run sys (Unit {0})
  write_state path state = if state == "" then return tt else on_disk (sys.write_file path state)

  unfoldable pub lay_out : String → TerraformWorkspace → Run sys (Unit {0})
  unfolding initialized_fs_flat initialize_fs_modules
  lay_out dir ws =
      if is_flat ws.modules
      then initialized_fs_flat dir ws.modules ws.instances
      else initialize_fs_modules dir ws.modules ws.instances

  unfoldable pub in_temp_dir : Run sys (Unit {0})
  in_temp_dir = on_disk sys.temp_dir >>= λ dir s. some (ok tt, record s { dir = dir })

  -- The files of the workspace, and `terraform init`.
  unfoldable pub filled : Run sys (Unit {0})
  unfolding lay_out write_state tf_state_path run_tf
  filled s =
      (lay_out s.dir s.workspace
          >> (write_state (tf_state_path s) s.workspace.state
              >> (run_tf ("init" ∷ "-no-color" ∷ []) >>= λ _. return tt)))
        s

  unfoldable pub initialize_fs : Run sys (Unit {0})
  unfolding in_temp_dir filled
  initialize_fs s = if s.locked then none else (in_temp_dir >> filled) (record s { locked = true })

  -- An error of `teardownFs` is seen by no caller: what has been done before it stays done.
  unfoldable pub teardown_fs : Run sys (Unit {0})
  unfolding tf_state_path
  teardown_fs s = elim (sys.read_file (tf_state_path s) s.disk) [
    | err e ↦ some (err e, s)
    | ok bytes ↦
        (let updated = record s { workspace = record (s.workspace) { state = bytes } } in
          let (removed, d) = sys.remove_all s.dir s.disk in
          elim removed [
            | err e ↦ some (err e, record updated { disk = d })
            | ok _ ↦ some (ok tt, record updated { disk = d; dir = ""; locked = false })
          ])
  ]
