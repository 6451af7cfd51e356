-- ===== src/Tf/Definition/Service.antt =====
-- `ToService`: the service definition that the registry takes.
use Prim.Native.String.{◌++◌ as append}
use cloud_service_broker.Prelude.{String, true, false, none, some, [], ◌∷◌, ◌++◌, map}
use cloud_service_broker.Outcome.{Result, ok, err, ◌>>=◌, plain}
use cloud_service_broker.Json.{text}
use cloud_service_broker.Externals.{Externals}
use cloud_service_broker.VarContext.Builder.{DefaultVariable}
use cloud_service_broker.Validation.{Formats}
use cloud_service_broker.Validation.Fields.{FieldErrors}
use cloud_service_broker.Service.Schema.{BrokerVariable}
use cloud_service_broker.Service.Provider.{ServiceProvider}
use cloud_service_broker.Service.Definition.{ServiceDefinition}
use cloud_service_broker.Tf.Definition.{TfServiceDefinitionV1, to_plan}
use cloud_service_broker.Tf.Definition.Templates.{Files, load_templates, resolve_env_vars}
use cloud_service_broker.Tf.Definition.Validity.{Printing, validate}

-- The properties of a plan that a binding's template reads. `quote` prints a text as `%q` does.
unfoldable pub plan_property : (String → String) → BrokerVariable → DefaultVariable
plan_property quote pi = record {
  name = pi.field_name;
  default_value = text (append "${request.plan_properties[" (append (quote pi.field_name) "]}"));
  overwrite = true;
  type_name = pi.type_name;
}

abbrev pub tf_id_variable : String → DefaultVariable
tf_id_variable template = record {
  name = "tf_id";
  default_value = text template;
  overwrite = true;
  type_name = "";
}

module _ {P : Type 0} (quote : String → String)
    (provider_of : TfServiceDefinitionV1 → ServiceProvider P) where
  unfoldable pub service_of : TfServiceDefinitionV1 → ServiceDefinition P
  service_of tfb = record {
    id = tfb.id;
    name = tfb.name;
    description = tfb.description;
    display_name = tfb.display_name;
    image_url = tfb.image_url;
    documentation_url = tfb.documentation_url;
    support_url = tfb.support_url;
    tags = tfb.tags;
    bindable = true;
    plan_updateable = tfb.plan_updateable;
    plans = map to_plan tfb.plans;
    provision_input_variables = tfb.provision_settings.user_inputs;
    provision_computed_variables =
        tfb.provision_settings.computed ++ (tf_id_variable "tf:${request.instance_id}:" ∷ []);
    bind_input_variables = tfb.bind_settings.user_inputs;
    bind_output_variables = tfb.provision_settings.outputs ++ tfb.bind_settings.outputs;
    bind_computed_variables =
        map (plan_property quote) tfb.bind_settings.plan_inputs
        ++ (tfb.bind_settings.computed
            ++ (tf_id_variable "tf:${request.instance_id}:${request.binding_id}" ∷ []));
    plan_variables = tfb.provision_settings.plan_inputs ++ tfb.bind_settings.plan_inputs;
    examples = tfb.examples;
    provider = provider_of tfb;
    is_builtin = false;
  }

  module _ (x : Externals) (fe : FieldErrors) (formats : Formats) (p : Printing)
      (files : Files) where
    valid_or_raise : TfServiceDefinitionV1 → Result (Unit {0})
    valid_or_raise tfb = elim (validate fe p formats tfb) [
      | none ↦ ok tt
      | some e ↦ err (plain (fe.error_text e))
    ]

    -- The environment goes to the executor, which is not part of the model.
    unfoldable pub to_service : TfServiceDefinitionV1 → Result (ServiceDefinition P)
    unfolding valid_or_raise service_of
    to_service tfb = do
      loaded ← load_templates files tfb
      valid ← valid_or_raise loaded
      env_vars ← resolve_env_vars x loaded
      ok (service_of loaded)
