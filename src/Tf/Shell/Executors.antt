-- ===== src/Tf/Shell/Executors.antt =====
-- The executors of wrapper/workspace.go that wrap another one, as changes of the command that it gets.
use Prim.Native.String.{◌++◌ as append}
use cloud_service_broker.Prelude.{
  ◌≡◌, refl, String, List, [], ◌∷◌, ◌++◌, ◌==◌, if◌then◌else◌, arith,
}
use cloud_service_broker.Prelude.StringMap.{StringMap}
use cloud_service_broker.Outcome.{Result, ok, err, plain}
use cloud_service_broker.Outcome.Exec.{Exec}
use cloud_service_broker.Tf.Shell.{Command, ExecutionOutput}

abbrev pub Executor : Type 0 → Type 0
Executor Disk = Command → Exec Disk ExecutionOutput

unfoldable pub env_pairs : StringMap String → List String
env_pairs [] = []
env_pairs ((k, v) ∷ environment) = append k (append "=" v) ∷ env_pairs environment

unfoldable pub custom_environment_executor :
    {Disk : Type 0} → StringMap String → Executor Disk → Executor Disk
unfolding env_pairs
custom_environment_executor environment wrapped c =
    wrapped (record c { env = c.env ++ env_pairs environment })

-- `split` splits a text at each `=`, and `trim` is `strings.TrimSpace`.
module _ (split : String → List String) (trim : String → String) where
  unfoldable pub update_path : List String → String → String
  update_path [] path = append "PATH=" path
  update_path (env_var ∷ vars) path =
      let rest = update_path vars path in
      elim (split env_var) [
        | name ∷ value ∷ _ ↦
            if trim name == "PATH"
            then append "PATH=" (append path (append ":" (trim value)))
            else rest
        | _ ↦ rest
      ]

  plugin_flags : String → String → List String → List String
  plugin_flags tf_plugin_dir sub_command args =
      if sub_command == "init"
      then "-get-plugins=false" ∷ append "-plugin-dir=" tf_plugin_dir ∷ args
      else args

  -- The command of another binary. A command without a sub-command panics; here it is an error.
  unfoldable pub custom_command : String → String → Command → Result Command
  unfolding update_path plugin_flags
  custom_command tf_binary_path tf_plugin_dir c = elim c.args [
    | program ∷ sub_command ∷ args ↦ ok (record {
      path = tf_binary_path;
      args = tf_binary_path ∷ sub_command ∷ plugin_flags tf_plugin_dir sub_command args;
      env = c.env ++ (update_path c.env tf_plugin_dir ∷ []);
      dir = c.dir;
    })
    | _ ↦ err (plain "index out of range")
  ]

  unfoldable pub custom_terraform_executor :
      {Disk : Type 0} → String → String → Executor Disk → Executor Disk
  unfolding custom_command
  custom_terraform_executor tf_binary_path tf_plugin_dir wrapped c d =
      elim (custom_command tf_binary_path tf_plugin_dir c) [
        | err e ↦ (err e, d)
        | ok command ↦ wrapped command d
      ]

  -- The executor of a pak, which adds the parameters' variables to a command and runs it with the pak's
  -- binary, gives the wrapped executor every variable of the command and of the parameters, and then one
  -- for the path, and leaves the directory.
  pub executors_extend :
      {Disk : Type 0} (tf_binary_path tf_plugin_dir : String) (environment : StringMap String)
      (wrapped : Executor Disk) (c command : Command) (d : Disk)
      → custom_command tf_binary_path tf_plugin_dir
          (record c { env = c.env ++ env_pairs environment })
        ≡ ok command
      → (custom_environment_executor environment
            (custom_terraform_executor tf_binary_path tf_plugin_dir wrapped)
            c
            d
          ≡ wrapped command d)
        × (command.env
            ≡ (c.env ++ env_pairs environment)
              ++ (update_path (c.env ++ env_pairs environment) tf_plugin_dir ∷ []))
        × (command.dir ≡ c.dir)
  unfolding custom_environment_executor custom_terraform_executor custom_command
  executors_extend tf_binary_path tf_plugin_dir environment wrapped c command d h =
      extended c.args refl
    where
      env' : List String
      env' = c.env ++ env_pairs environment

      extended :
          (args : List String)
          → c.args ≡ args
          → (custom_environment_executor environment
                (custom_terraform_executor tf_binary_path tf_plugin_dir wrapped)
                c
                d
              ≡ wrapped command d)
            × (command.env ≡ env' ++ (update_path env' tf_plugin_dir ∷ []))
            × (command.dir ≡ c.dir)
      extended [] same = absurd (ground (arith, h, same))
      extended (p ∷ []) same = absurd (ground (arith, h, same))
      extended (p ∷ sub ∷ args) same =
          (ground (arith, h), ground (arith, h, same), ground (arith, h, same))
