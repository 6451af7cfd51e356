-- ===== src/Tf/Definition/Templates.antt =====
-- Loading of the templates that a definition names, and of its environment.
use cloud_service_broker.Prelude.{String, ◌==◌, List, [], ◌∷◌, if◌then◌else◌}
use cloud_service_broker.Prelude.StringMap.{StringMap, insert}
use cloud_service_broker.Outcome.{Result, ok, err, ◌>>=◌, plain, wrapped}
use cloud_service_broker.Externals.{Externals}
use cloud_service_broker.Tf.Definition.{TfServiceDefinitionV1Action, TfServiceDefinitionV1}

-- `ioutil.ReadFile` and `path.Join`.
pub record Files : Type 0 where
  pub read_file : String → Result String
  pub join_path : String → String → String

module _ (files : Files) where
  unfoldable pub load_template : String → Result String
  load_template template_path = if template_path == "" then ok "" else files.read_file template_path

  load_refs : String → StringMap String → StringMap String → Result (StringMap String)
  unfolding load_template
  load_refs src_dir [] templates = ok templates
  load_refs src_dir ((name, ref) ∷ refs) templates =
      let skipped = load_refs src_dir refs templates in
      let loaded : Result (StringMap String) = (do
        template ← load_template (files.join_path src_dir ref)
        load_refs src_dir refs (insert name template templates)) in
      if ref == "" then skipped else loaded

  -- The action as it is changed in place.
  unfoldable pub load_action :
      String → TfServiceDefinitionV1Action → Result TfServiceDefinitionV1Action
  unfolding load_refs
  load_action src_dir action = do
    template ←
        (if action.template_ref == ""
          then ok action.template
          else load_template (files.join_path src_dir action.template_ref))
    templates ← load_refs src_dir action.template_refs action.templates
    ok (record action { template = template; templates = templates })

  unfoldable pub load_templates : TfServiceDefinitionV1 → Result TfServiceDefinitionV1
  load_templates tfb = do
    bind_settings ← load_action "." tfb.bind_settings
    provision_settings ← load_action "." tfb.provision_settings
    ok (record tfb { bind_settings = bind_settings; provision_settings = provision_settings })

module _ (x : Externals) where
  resolve_from : List String → StringMap String → Result (StringMap String)
  resolve_from [] vars = ok vars
  resolve_from (v ∷ vs) vars =
      let rest = resolve_from vs (insert v (x.viper_string v) vars) in
      if x.viper_is_set v then rest else err (wrapped "missing required env var " (plain v) "")

  -- viper's answers are those after `BindEnv(v, v)`.
  unfoldable pub resolve_env_vars : TfServiceDefinitionV1 → Result (StringMap String)
  unfolding resolve_from
  resolve_env_vars tfb = resolve_from tfb.required_env_vars []
