-- ===== src/Tests/Terraform.antt =====
-- The Terraform provider on a runner in memory, and the broker on top of it.
use mathlib.Core.List.{Memᴰ}
use cloud_service_broker.Prelude.{
  ◌≡◌, ◌||◌, refl, String, true, false, none, some, [], ◌∷◌, contains,
}
use cloud_service_broker.Prelude.StringMap.{lookup}
use cloud_service_broker.Outcome.{ok}
use cloud_service_broker.Service.Definition.{ServiceDefinition}
use cloud_service_broker.Service.Validity.{validate_variable, validate_default, validate_definition}
use cloud_service_broker.Registry.{BrokerRegistry}
use cloud_service_broker.Registry.Register.{
  register, register_all, IsSound, register_all_empty-IsSound,
}
use cloud_service_broker.Tf.Module.{outputs, decode, inputs}
use cloud_service_broker.Tf.Definition.Templates.{resolve_env_vars, load_action, load_templates}
use cloud_service_broker.Tf.Definition.Validity.{
  validate_template_outputs, validate_plan, validate_action, validate, is_one, declared_inputs,
  add_fields, validate_template_inputs, module_of,
}
use cloud_service_broker.Tf.Definition.Service.{service_of, to_service}
use cloud_service_broker.Tf.Definition.Laws.{to_service-validates}
use cloud_service_broker.Tf.Definition.Inputs.{validate_template_inputs_sound}
use cloud_service_broker.Tf.Definition.{TfServiceDefinitionV1}
use cloud_service_broker.Validation.{
  matches_json_schema_type, err_if_not_uuid, err_if_not_url, err_if_not_osb_name,
  err_if_not_json_schema_type, err_if_not_hcl, err_if_blank, each, matches_osb_name, matches_uuid,
}
use Prim.Native.String.{◌++◌ as append}
use cloud_service_broker.StringSet
use cloud_service_broker.Brokerpak.{
  BrokerpakSourceConfig, to_definitions, to_definitions_from, excluded_services_slice,
}
use cloud_service_broker.Brokerpak.Laws.{converter, to_definitions_excluded}
use mathlib.Core.List.Memᴰ.{head}
use cloud_service_broker.Tests.Scene.{world, provider}
use cloud_service_broker.Prelude.Sorting.{sort_by}
use cloud_service_broker.Service.Plans.{catalog_entry}
use cloud_service_broker.StringSet.{to_slice, new_string_set, minus, equals, add_one}
use cloud_service_broker.Tests.Fields.{
  messages, formats, printing, files, provisioning, definition, first_error,
}

inputs_fit : validate_template_inputs messages printing provisioning ≡ none
unfolding validate_template_inputs inputs decode to_slice sort_by minus new_string_set
    declared_inputs
inputs_fit = refl

inputs_read : inputs printing.parse_hcl (module_of provisioning) ≡ ok ("region" ∷ [])
unfolding inputs decode sort_by
inputs_read = refl

validate_template_inputs_sound_example :
    (false || (contains "region" ("region" ∷ []) || false)) ≡ true
validate_template_inputs_sound_example =
    validate_template_inputs_sound messages printing provisioning ("region" ∷ []) "region"
      inputs_fit inputs_read refl

abbrev quote : String → String
quote s = s

abbrev offered : ServiceDefinition (Unit {0})
offered = service_of quote (λ _. provider) definition

converts :
    to_service quote (λ _. provider) world messages formats printing files definition ≡ ok offered
unfolding to_service load_templates load_action validate each first_error is_one err_if_blank
    err_if_not_uuid matches_uuid err_if_not_url validate_plan validate_action validate_variable
    err_if_not_json_schema_type matches_json_schema_type err_if_not_hcl sort_by add_one equals minus
    new_string_set to_slice service_of resolve_env_vars add_fields declared_inputs
    validate_template_inputs validate_template_outputs decode inputs outputs
converts = refl

named : matches_osb_name offered.name ≡ true
unfolding matches_osb_name service_of
named = refl

to_service-validates_example :
    (validate_definition messages formats offered ≡ none)
    × ((loaded : TfServiceDefinitionV1) × (load_templates files definition ≡ ok loaded)
        × (offered ≡ service_of quote (λ _. provider) loaded)
        × (validate_template_inputs messages printing loaded.provision_settings ≡ none)
        × (validate_template_inputs messages printing loaded.bind_settings ≡ none))
to_service-validates_example =
    to_service-validates messages printing formats quote (λ _. provider) world files definition
      offered converts named

abbrev registry : BrokerRegistry (Unit {0})
registry = ("store", offered) ∷ []

registers : register_all world messages formats (offered ∷ []) [] ≡ ok registry
unfolding register_all register catalog_entry validate_definition each service_of first_error
    err_if_not_uuid matches_uuid err_if_not_osb_name matches_osb_name validate_variable err_if_blank
    err_if_not_json_schema_type matches_json_schema_type validate_default
registers = refl

register_all_empty-IsSound_example :
    IsSound world messages formats registry
    × ((sd : ServiceDefinition (Unit {0}))
        → Memᴰ sd (offered ∷ [])
        → lookup sd.name registry ≡ some sd)
register_all_empty-IsSound_example =
    register_all_empty-IsSound world messages formats (offered ∷ []) registry registers

abbrev other : TfServiceDefinitionV1
other = record definition { id = "other" }

abbrev pak : BrokerpakSourceConfig
pak = record {
  brokerpak_uri = "pak";
  service_prefix = "my-";
  excluded_services = "other";
  config = "{}";
  notes = "";
}

abbrev renamed : ServiceDefinition (Unit {0})
renamed = record offered { name = "my-store" }

pak_converts :
    to_definitions
      (converter quote (λ _. provider) world messages formats printing files)
      world
      (λ s. s ∷ [])
      pak
      (other ∷ definition ∷ [])
    ≡ ok (renamed ∷ [])
unfolding to_service load_templates load_action validate each first_error is_one err_if_blank
    err_if_not_uuid matches_uuid err_if_not_url validate_plan validate_action validate_variable
    err_if_not_json_schema_type matches_json_schema_type err_if_not_hcl sort_by add_one equals minus
    new_string_set to_slice service_of resolve_env_vars add_fields declared_inputs
    validate_template_inputs validate_template_outputs decode inputs outputs to_definitions
    to_definitions_from excluded_services_slice StringSet.contains
pak_converts = refl

to_definitions_excluded_example :
    (contains renamed.id (excluded_services_slice world (λ s. s ∷ []) pak) ≡ false)
    × ((svc : TfServiceDefinitionV1) × Memᴰ svc (other ∷ definition ∷ [])
        × (renamed.id ≡ svc.id)
        × (renamed.name ≡ append pak.service_prefix svc.name))
to_definitions_excluded_example =
    to_definitions_excluded quote (λ _. provider) world messages formats printing files
      (λ s. s ∷ []) pak (other ∷ definition ∷ []) (renamed ∷ []) renamed pak_converts (head refl)
