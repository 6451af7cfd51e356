-- ===== src/Tf/Definition/Validity.antt =====
-- The `Validate` methods of pkg/providers/tf/definition.go.
use Prim.Native.String.{◌++◌}
use cloud_service_broker.Prelude.{
  String, Bool, false, ◌==◌, nat_eq, Option, none, List, [], ◌∷◌, if◌then◌else◌,
}
use cloud_service_broker.Outcome.{Error, Result, ok, err, message}
use cloud_service_broker.StringSet
use cloud_service_broker.StringSet.{StringSet, new_string_set}
use cloud_service_broker.VarContext.Builder.{DefaultVariable}
use cloud_service_broker.Validation.{
  Formats, each, err_if_blank, err_if_not_uuid, err_if_not_url, err_if_not_hcl,
}
use cloud_service_broker.Validation.Fields.{FieldErrors}
use cloud_service_broker.Service.Schema.{BrokerVariable}
use cloud_service_broker.Service.Validity.{validate_variable, validate_default, validate_example}
use cloud_service_broker.Tf.Module.{ℤ, pos, negsuc, Block, ModuleDefinition, inputs, outputs}
use cloud_service_broker.Tf.Definition.{
  TfServiceDefinitionV1Plan, TfServiceDefinitionV1Action, TfServiceDefinitionV1,
}

-- hcl's blocks, and the texts that fmt prints.
pub record Printing : Type 0 where
  pub parse_hcl : String → Result (List Block)
  pub sentinel : Error → String
  pub print_int : ℤ → String
  pub print_strings : List String → String
  pub print_set : StringSet → String

unfoldable pub is_one : ℤ → Bool
is_one (pos n) = nat_eq n 1
is_one (negsuc n) = false

unfoldable pub add_fields : List BrokerVariable → StringSet → StringSet
unfolding StringSet.add_one
add_fields [] set = set
add_fields (v ∷ vs) set = add_fields vs (StringSet.add_one v.field_name set)

unfoldable pub add_names : List DefaultVariable → StringSet → StringSet
unfolding StringSet.add_one
add_names [] set = set
add_names (v ∷ vs) set = add_names vs (StringSet.add_one v.name set)

unfoldable pub declared_inputs : TfServiceDefinitionV1Action → StringSet
unfolding add_fields add_names
declared_inputs action =
    add_names action.computed
      (add_fields action.user_inputs (add_fields action.plan_inputs StringSet.empty))

abbrev pub module_of : TfServiceDefinitionV1Action → ModuleDefinition
module_of action = record {
  name = "";
  definition = action.template;
  definitions = action.templates;
}

module _ (fe : FieldErrors) (p : Printing) where
  open fe use {FieldError, also, field_error, via_field}

  unfoldable pub validate_plan : TfServiceDefinitionV1Plan → Option FieldError
  validate_plan plan = also none (
      err_if_blank fe plan.name "name"
      ∷ err_if_not_uuid fe plan.id "id"
      ∷ err_if_blank fe plan.description "description"
      ∷ err_if_blank fe plan.display_name "display_name"
      ∷ [])

  unfoldable pub missing : List String → Option FieldError
  missing [] = none
  missing (f ∷ fs) = field_error "fields used but not declared" (f ∷ fs)

  -- Every input of the template is one that the service declares.
  unfoldable pub validate_template_inputs : TfServiceDefinitionV1Action → Option FieldError
  unfolding missing
  validate_template_inputs action = elim (inputs p.parse_hcl (module_of action)) [
    | err e ↦ field_error (message p.sentinel e) []
    | ok tf_in ↦
        missing
          (StringSet.to_slice (StringSet.minus (new_string_set tf_in) (declared_inputs action)))
  ]

  -- The outputs of the template, less `status`, are those that the service defines.
  unfoldable pub validate_template_outputs : TfServiceDefinitionV1Action → Option FieldError
  validate_template_outputs action = elim (outputs p.parse_hcl (module_of action)) [
    | err e ↦ field_error (message p.sentinel e) []
    | ok tf_out ↦
        (let defined = add_fields action.outputs StringSet.empty in
          if StringSet.equals defined
            (StringSet.minus (new_string_set tf_out) (new_string_set ("status" ∷ [])))
          then none
          else field_error
              ("template outputs "
                ++ (p.print_strings tf_out
                    ++ (" must match declared outputs " ++ p.print_set defined)))
              [])
  ]

  unfoldable pub validate_template_io : TfServiceDefinitionV1Action → Option FieldError
  validate_template_io action = also none (
      via_field "template" (validate_template_inputs action)
      ∷ via_field "template" (validate_template_outputs action)
      ∷ [])

  module _ (formats : Formats) where
    unfoldable pub validate_action : TfServiceDefinitionV1Action → Option FieldError
    validate_action action =
        let v = validate_variable fe in
        let d = validate_default fe in
        let inputs_checked = each fe d "computed_inputs" 0 action.computed (
          each fe v "user_inputs" 0 action.user_inputs
            (each fe v "plan_inputs" 0 action.plan_inputs none)) in
        let loaded =
          if action.template_ref == ""
          then inputs_checked
          else also inputs_checked
              (err_if_blank fe action.template "template not loaded from templat ref" ∷ []) in
        each fe v "outputs" 0 action.outputs (
          also loaded (
            err_if_not_hcl fe formats action.template "template"
            ∷ via_field "template" (validate_template_inputs action)
            ∷ via_field "template" (validate_template_outputs action)
            ∷ []))

    unfoldable pub validate : TfServiceDefinitionV1 → Option FieldError
    validate tfb =
        let versioned =
          if is_one tfb.version
          then none
          else also none (fe.invalid_value (p.print_int tfb.version) "version" ∷ []) in
        let described = also versioned (
          err_if_blank fe tfb.name "name"
          ∷ err_if_not_uuid fe tfb.id "id"
          ∷ err_if_blank fe tfb.description "description"
          ∷ err_if_blank fe tfb.display_name "display_name"
          ∷ err_if_not_url fe formats tfb.image_url "image_url"
          ∷ err_if_not_url fe formats tfb.documentation_url "documentation_url"
          ∷ err_if_not_url fe formats tfb.support_url "support_url"
          ∷ []) in
        let planned = each fe validate_plan "plans" 0 tfb.plans described in
        let provisioned =
          also planned (via_field "provision" (validate_action tfb.provision_settings) ∷ []) in
        let bound = also provisioned (via_field "bind" (validate_action tfb.bind_settings) ∷ []) in
        each fe (validate_example fe) "examples" 0 tfb.examples bound
