-- ===== src/Tf/Definition/Laws.antt =====
-- What a Terraform service that converts has, and that the registry takes it.
use cloud_service_broker.Prelude.{
  ◌≡◌, refl, String, Bool, true, false, ◌==◌, Option, none, List, [], map, arith, inl, inr,
  Bool-cases, Option-cases, if◌then◌else◌,
}
use cloud_service_broker.Outcome.{ok, Result-cases}
use cloud_service_broker.Validation.{
  Formats, matches_osb_name, err_if_blank, err_if_not_json_schema_type, err_if_not_uuid,
  err_if_not_url, err_if_not_match, matches_json_schema_type,
}
use cloud_service_broker.Validation.Fields.{FieldErrors, AllValid}
use cloud_service_broker.Validation.Laws.{
  each-none, AllValid-append, AllValid-map, err_if_not_uuid-none, err_if_blank-none,
}
use cloud_service_broker.Service.Schema.{BrokerVariable}
use cloud_service_broker.Service.Provider.{ServiceProvider}
use cloud_service_broker.Service.Definition.{ServiceDefinition}
use cloud_service_broker.Service.Validity.{
  validate_variable, validate_default, validate_example, validate_definition,
  validate_definition_complete,
}
use cloud_service_broker.Externals.{Externals}
use cloud_service_broker.Tf.Definition.{TfServiceDefinitionV1Action, TfServiceDefinitionV1}
use cloud_service_broker.Tf.Definition.Templates.{Files, load_templates, resolve_env_vars}
use cloud_service_broker.Tf.Definition.Validity.{
  Printing, validate, validate_plan, validate_action, validate_template_inputs,
  validate_template_outputs,
}
use cloud_service_broker.Tf.Definition.Service.{
  plan_property, tf_id_variable, service_of, to_service,
}

module _ (fe : FieldErrors) (p : Printing) (formats : Formats) where
  open fe use {FieldError, also}

  -- The variables of an action are valid, and fit its template.
  pub record IsValidAction (action : TfServiceDefinitionV1Action) : Type 0 where
    pub plan_inputs : AllValid (validate_variable fe) action.plan_inputs
    pub user_inputs : AllValid (validate_variable fe) action.user_inputs
    pub computed : AllValid (validate_default fe) action.computed
    pub outputs : AllValid (validate_variable fe) action.outputs
    pub template_inputs : validate_template_inputs fe p action ≡ none
    pub template_outputs : validate_template_outputs fe p action ≡ none

  unguarded :
      (b : Bool) (errs : Option FieldError) (es : List (Option FieldError))
      → (if b then errs else also errs es) ≡ none
      → errs ≡ none
  unguarded true errs es h = h
  unguarded false errs es h = (fe.also_collects errs es h).0

  pub validate_action_sound :
      (action : TfServiceDefinitionV1Action)
      → validate_action fe p formats action ≡ none
      → IsValidAction action
  unfolding validate_action
  validate_action_sound action h =
      let v = validate_variable fe in
      let (h3, outs) = each-none fe v "outputs" 0 action.outputs _ h in
      let (h2, (hcl, (ins, (fits, _)))) = fe.also_collects _ _ h3 in
      let h1 = unguarded (action.template_ref == "") _ _ h2 in
      let (h0, comp) =
        each-none fe (validate_default fe) "computed_inputs" 0 action.computed _ h1 in
      let (h', user) = each-none fe v "user_inputs" 0 action.user_inputs _ h0 in
      let (_, plan) = each-none fe v "plan_inputs" 0 action.plan_inputs none h' in
      record {
        plan_inputs = plan;
        user_inputs = user;
        computed = comp;
        outputs = outs;
        template_inputs = fe.via_field_none "template" _ ins;
        template_outputs = fe.via_field_none "template" _ fits;
      }

  pub record IsValidTf (tfb : TfServiceDefinitionV1) : Type 0 where
    pub has_uuid : err_if_not_uuid fe tfb.id "id" ≡ none
    pub image : err_if_not_url fe formats tfb.image_url "image_url" ≡ none
    pub documentation : err_if_not_url fe formats tfb.documentation_url "documentation_url" ≡ none
    pub support : err_if_not_url fe formats tfb.support_url "support_url" ≡ none
    pub plans : AllValid (validate_plan fe p) tfb.plans
    pub provision : IsValidAction tfb.provision_settings
    pub bind : IsValidAction tfb.bind_settings

  pub validate_sound :
      (tfb : TfServiceDefinitionV1) → validate fe p formats tfb ≡ none → IsValidTf tfb
  unfolding validate
  validate_sound tfb h =
      let (h4, _) = each-none fe (validate_example fe) "examples" 0 tfb.examples _ h in
      let (h3, (bound, _)) = fe.also_collects _ _ h4 in
      let (h2, (provisioned, _)) = fe.also_collects _ _ h3 in
      let (h1, ps) = each-none fe (validate_plan fe p) "plans" 0 tfb.plans _ h2 in
      let (_, (_, (uuid, (_, (_, (image, (doc, (support, _)))))))) = fe.also_collects _ _ h1 in
      record {
        has_uuid = uuid;
        image = image;
        documentation = doc;
        support = support;
        plans = ps;
        provision =
            validate_action_sound tfb.provision_settings
              (fe.via_field_none "provision" _ provisioned);
        bind = validate_action_sound tfb.bind_settings (fe.via_field_none "bind" _ bound);
      }

  url_elsewhere :
      (url f g : String)
      → err_if_not_url fe formats url f ≡ none
      → err_if_not_url fe formats url g ≡ none
  unfolding err_if_not_url
  url_elsewhere url f g h = elim (Bool-cases (formats.is_absolute_uri url)) [
    | inl good ↦ rw good refl
    | inr bad ↦ absurd (fe.field_error_some "field must be a URL" f [] (ground (arith, h, bad)))
  ]

  uuid_elsewhere :
      (id f g : String) → err_if_not_uuid fe id f ≡ none → err_if_not_uuid fe id g ≡ none
  unfolding err_if_not_uuid
  uuid_elsewhere id f g h = rw (err_if_not_uuid-none fe id f h) refl

  blank_elsewhere : (s f g : String) → err_if_blank fe s f ≡ none → err_if_blank fe s g ≡ none
  unfolding err_if_blank
  blank_elsewhere s f g h = rw (err_if_blank-none fe s f h) refl

  -- A valid plan input gives a valid variable of the binding.
  plan_property_valid :
      (quote : String → String) (pi : BrokerVariable)
      → validate_variable fe pi ≡ none
      → validate_default fe (plan_property quote pi) ≡ none
  unfolding validate_variable validate_default plan_property
  plan_property_valid quote pi h =
      let (_, (named, (typed, _))) = fe.also_collects _ _ h in
      fe.also_none none _ refl
        (blank_elsewhere pi.field_name "field_name" "name" named, (refl, (typed, tt)))

  tf_id_valid : (template : String) → validate_default fe (tf_id_variable template) ≡ none
  unfolding validate_default err_if_blank err_if_not_json_schema_type err_if_not_match
      matches_json_schema_type
  tf_id_valid template = fe.also_none none _ refl (refl, (refl, (refl, tt)))

  module _ {P : Type 0} (quote : String → String)
      (provider_of : TfServiceDefinitionV1 → ServiceProvider P) where
    service_of-validates :
        (tfb : TfServiceDefinitionV1)
        → IsValidTf tfb
        → matches_osb_name tfb.name ≡ true
        → validate_definition fe formats (service_of quote provider_of tfb) ≡ none
    unfolding service_of
    service_of-validates tfb v named =
        let var = validate_variable fe in
        let dv = validate_default fe in
        let ps = tfb.provision_settings in
        let bs = tfb.bind_settings in
        validate_definition_complete fe formats (service_of quote provider_of tfb)
          (uuid_elsewhere tfb.id "id" "Id" v.has_uuid) named
          (url_elsewhere tfb.image_url "image_url" "ImageUrl" v.image)
          (url_elsewhere tfb.documentation_url "documentation_url" "DocumentationUrl"
            v.documentation)
          (url_elsewhere tfb.support_url "support_url" "SupportUrl" v.support)
          v.provision.user_inputs
          (AllValid-append dv ps.computed _ v.provision.computed
            (tf_id_valid "tf:${request.instance_id}:", tt))
          v.bind.user_inputs
          (AllValid-append var ps.outputs bs.outputs v.provision.outputs v.bind.outputs)
          (AllValid-append dv (map (plan_property quote) bs.plan_inputs) _
            (AllValid-map dv (plan_property quote) var (plan_property_valid quote) bs.plan_inputs
              v.bind.plan_inputs)
            (AllValid-append dv bs.computed _ v.bind.computed
              (tf_id_valid "tf:${request.instance_id}:${request.binding_id}", tt)))
          (AllValid-append var ps.plan_inputs bs.plan_inputs v.provision.plan_inputs
            v.bind.plan_inputs)

    pub to_service_inverse :
        (x : Externals) (files : Files) (tfb : TfServiceDefinitionV1) (sd : ServiceDefinition P)
        → to_service quote provider_of x fe formats p files tfb ≡ ok sd
        → (loaded : TfServiceDefinitionV1) × (load_templates files tfb ≡ ok loaded)
          × (validate fe p formats loaded ≡ none)
          × (sd ≡ service_of quote provider_of loaded)
    unfolding to_service
    to_service_inverse x files tfb sd h = elim (Result-cases (load_templates files tfb)) [
      | inr (e, refused) ↦ absurd (ground (arith, h, refused))
      | inl (loaded, done) ↦ elim (Option-cases (validate fe p formats loaded)) [
        | inr (e, invalid) ↦ absurd (ground (arith, h, done, invalid))
        | inl valid ↦ elim (Result-cases (resolve_env_vars x loaded)) [
          | inr (e, refused) ↦ absurd (ground (arith, h, done, valid, refused))
          | inl (env, resolved) ↦ (loaded, done, valid, ground (arith, h, done, valid, resolved))
        ]
      ]
    ]

    -- A Terraform service that converts passes `ServiceDefinition.Validate`, provided that its name is
    -- one that OSB allows, which the conversion does not check; it is the service of the definition with
    -- its templates loaded, and each of its two templates has only inputs that the definition declares.
    pub to_service-validates :
        (x : Externals) (files : Files) (tfb : TfServiceDefinitionV1) (sd : ServiceDefinition P)
        → to_service quote provider_of x fe formats p files tfb ≡ ok sd
        → matches_osb_name sd.name ≡ true
        → (validate_definition fe formats sd ≡ none)
          × ((loaded : TfServiceDefinitionV1) × (load_templates files tfb ≡ ok loaded)
              × (sd ≡ service_of quote provider_of loaded)
              × (validate_template_inputs fe p loaded.provision_settings ≡ none)
              × (validate_template_inputs fe p loaded.bind_settings ≡ none))
    unfolding service_of
    to_service-validates x files tfb sd h named =
        let (loaded, done, valid, same) = to_service_inverse x files tfb sd h in
        let v = validate_sound loaded valid in
        (
          rw same (service_of-validates loaded v (rw same at named)),
          (loaded, done, same, v.provision.template_inputs, v.bind.template_inputs),
        )
