-- ===== src/Service/Validity.antt =====
-- The `Validate` methods of pkg/broker and of `varcontext.DefaultVariable`.
use cloud_service_broker.Prelude.{
  ◌≡◌, refl, String, true, ◌==◌, Option, none, List, [], ◌∷◌, arith, inl, inr, Bool-cases,
  if◌then◌else◌,
}
use cloud_service_broker.Json.{Value, null}
use cloud_service_broker.VarContext.Builder.{DefaultVariable}
use cloud_service_broker.Validation.{
  Formats, each, matches_uuid, matches_osb_name, err_if_blank, err_if_not_uuid, err_if_not_osb_name,
  err_if_not_json_schema_type, err_if_not_url, err_if_not_match,
}
use cloud_service_broker.Validation.Fields.{FieldErrors, AllValid}
use cloud_service_broker.Validation.Laws.{
  each-none, each_of_none, err_if_not_uuid-none, err_if_not_osb_name-none,
}
use cloud_service_broker.Service.Schema.{BrokerVariable}
use cloud_service_broker.Service.Definition.{ServiceDefinition, ServiceExample}

module _ (fe : FieldErrors) where
  open fe use {FieldError, also}

  err_if_nil : Value → String → Option FieldError
  err_if_nil null field = fe.missing_field field
  err_if_nil _ field = none

  unfoldable pub validate_variable : BrokerVariable → Option FieldError
  validate_variable bv = also none (
      err_if_blank fe bv.field_name "field_name"
      ∷ err_if_not_json_schema_type fe bv.type_name "type"
      ∷ err_if_blank fe bv.details "details"
      ∷ [])

  unfoldable pub validate_default : DefaultVariable → Option FieldError
  unfolding err_if_nil
  validate_default dv = also none (
      err_if_blank fe dv.name "name"
      ∷ err_if_nil dv.default_value "default"
      ∷ err_if_not_json_schema_type fe dv.type_name "type"
      ∷ [])

  unfoldable pub validate_example : ServiceExample → Option FieldError
  validate_example action = also none (
      err_if_blank fe action.name "name"
      ∷ err_if_blank fe action.description "description"
      ∷ err_if_blank fe action.plan_id "plan_id"
      ∷ [])

  module _ (formats : Formats) where
    -- `if url != "" { errs = errs.Also(ErrIfNotURL(url, field)) }`
    also_url : String → String → Option FieldError → Option FieldError
    also_url url field errs =
        if url == "" then errs else also errs (err_if_not_url fe formats url field ∷ [])

    also_url-none :
        (url field : String) (errs : Option FieldError)
        → also_url url field errs ≡ none
        → errs ≡ none
    unfolding also_url
    also_url-none url field errs h = elim (Bool-cases (url == "")) [
      | inl blank ↦ ground (arith, h, blank)
      | inr other ↦
          (fe.also_collects errs (err_if_not_url fe formats url field ∷ [])
            (ground (arith, h, other))).0
    ]

    also_url_of_none :
        (url field : String)
        → err_if_not_url fe formats url field ≡ none
        → (errs : Option FieldError) → errs ≡ none
        → also_url url field errs ≡ none
    unfolding also_url
    also_url_of_none url field h errs e = elim (Bool-cases (url == "")) [
      | inl blank ↦ rw (e, blank) refl
      | inr other ↦
          rw (e, other) (fe.also_none none (err_if_not_url fe formats url field ∷ []) refl (h, tt))
    ]

  each_after :
      {A : Type 0} (validate : A → Option FieldError) (field : String) (as' : List A)
      → AllValid validate as'
      → (errs : Option FieldError) → errs ≡ none
      → each fe validate field 0 as' errs ≡ none
  each_after validate field as' h errs e = rw e (each_of_none fe validate field 0 as' h)

  module _ (formats : Formats) {P : Type 0} where
    unfoldable pub validate_definition : ServiceDefinition P → Option FieldError
    unfolding also_url
    validate_definition sd =
        let named =
          also none (err_if_not_uuid fe sd.id "Id" ∷ err_if_not_osb_name fe sd.name "Name" ∷ []) in
        let linked = also_url formats sd.support_url "SupportUrl" (
          also_url formats sd.documentation_url "DocumentationUrl"
            (also_url formats sd.image_url "ImageUrl" named)) in
        let v = validate_variable in
        let d = validate_default in
        each fe v "PlanVariables" 0 sd.plan_variables (
          each fe d "BindComputedVariables" 0 sd.bind_computed_variables (
            each fe v "BindOutputVariables" 0 sd.bind_output_variables (
              each fe v "BindInputVariables" 0 sd.bind_input_variables (
                each fe d "ProvisionComputedVariables" 0 sd.provision_computed_variables
                  (each fe v "ProvisionInputVariables" 0 sd.provision_input_variables linked)))))

    -- What a definition without errors has: an id in the form of a UUID, a name that OSB allows, and
    -- variables that are valid one by one.
    pub record IsValidDefinition (sd : ServiceDefinition P) : Type 0 where
      pub has_uuid : matches_uuid sd.id ≡ true
      pub has_osb_name : matches_osb_name sd.name ≡ true
      pub inputs : AllValid validate_variable sd.provision_input_variables
      pub computed : AllValid validate_default sd.provision_computed_variables
      pub bind_inputs : AllValid validate_variable sd.bind_input_variables
      pub bind_outputs : AllValid validate_variable sd.bind_output_variables
      pub bind_computed : AllValid validate_default sd.bind_computed_variables
      pub plan_inputs : AllValid validate_variable sd.plan_variables

    pub validate_definition_sound :
        (sd : ServiceDefinition P) → validate_definition sd ≡ none → IsValidDefinition sd
    unfolding validate_definition
    validate_definition_sound sd h =
        let (h5, plans) = each-none fe validate_variable "PlanVariables" 0 sd.plan_variables _ h in
        let (h4, computed) =
          each-none fe validate_default "BindComputedVariables" 0 sd.bind_computed_variables _ h5 in
        let (h3, outputs) =
          each-none fe validate_variable "BindOutputVariables" 0 sd.bind_output_variables _ h4 in
        let (h2, inputs) =
          each-none fe validate_variable "BindInputVariables" 0 sd.bind_input_variables _ h3 in
        let (h1, p_computed) =
          each-none fe validate_default "ProvisionComputedVariables" 0
            sd.provision_computed_variables _ h2 in
        let (h0, p_inputs) =
          each-none fe validate_variable "ProvisionInputVariables" 0 sd.provision_input_variables _
            h1 in
        let named = also_url-none formats sd.image_url "ImageUrl" _ (
          also_url-none formats sd.documentation_url "DocumentationUrl" _
            (also_url-none formats sd.support_url "SupportUrl" _ h0)) in
        let (_, (uuid, (osb, _))) = fe.also_collects none _ named in
        record {
          has_uuid = err_if_not_uuid-none fe sd.id "Id" uuid;
          has_osb_name = err_if_not_osb_name-none fe sd.name "Name" osb;
          inputs = p_inputs;
          computed = p_computed;
          bind_inputs = inputs;
          bind_outputs = outputs;
          bind_computed = computed;
          plan_inputs = plans;
        }

    -- Conversely, a definition with these parts has no errors.
    pub validate_definition_complete :
        (sd : ServiceDefinition P)
        → err_if_not_uuid fe sd.id "Id" ≡ none
        → matches_osb_name sd.name ≡ true
        → err_if_not_url fe formats sd.image_url "ImageUrl" ≡ none
        → err_if_not_url fe formats sd.documentation_url "DocumentationUrl" ≡ none
        → err_if_not_url fe formats sd.support_url "SupportUrl" ≡ none
        → AllValid validate_variable sd.provision_input_variables
        → AllValid validate_default sd.provision_computed_variables
        → AllValid validate_variable sd.bind_input_variables
        → AllValid validate_variable sd.bind_output_variables
        → AllValid validate_default sd.bind_computed_variables
        → AllValid validate_variable sd.plan_variables
        → validate_definition sd ≡ none
    unfolding validate_definition err_if_not_osb_name err_if_not_match
    validate_definition_complete sd uuid osb image doc support a b c d e f =
        each_after _ "PlanVariables" sd.plan_variables f _ (
          each_after _ "BindComputedVariables" sd.bind_computed_variables e _ (
            each_after _ "BindOutputVariables" sd.bind_output_variables d _ (
              each_after _ "BindInputVariables" sd.bind_input_variables c _ (
                each_after _ "ProvisionComputedVariables" sd.provision_computed_variables b _ (
                  each_after _ "ProvisionInputVariables" sd.provision_input_variables a _ (
                    also_url_of_none formats sd.support_url "SupportUrl" support _ (
                      also_url_of_none formats sd.documentation_url "DocumentationUrl" doc _ (
                        also_url_of_none formats sd.image_url "ImageUrl" image _
                          (fe.also_none none _ refl (uuid, (rw osb refl, tt)))))))))))
