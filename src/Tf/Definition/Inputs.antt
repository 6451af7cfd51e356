-- ===== src/Tf/Definition/Inputs.antt =====
-- The inputs of a template, and those that a service declares.
use cloud_service_broker.Prelude.{
  ◌≡◌, refl, String, true, false, ◌||◌, none, List, [], ◌∷◌, arith, contains,
}
use cloud_service_broker.Outcome.{ok}
use cloud_service_broker.StringSet
use cloud_service_broker.StringSet.{StringSet, new_string_set}
use cloud_service_broker.StringSet.Laws.{
  contains-minus, contains-new_string_set, contains-add_one, contains-empty, holds-to_slice,
}
use cloud_service_broker.Validation.Fields.{FieldErrors}
use cloud_service_broker.VarContext.Builder.{DefaultVariable}
use cloud_service_broker.Service.Schema.{BrokerVariable}
use cloud_service_broker.Tf.Module.{inputs}
use cloud_service_broker.Tf.Definition.{TfServiceDefinitionV1Action}
use cloud_service_broker.Tf.Definition.Validity.{
  Printing, declared_inputs, module_of, missing, add_fields, add_names, validate_template_inputs,
}

abbrev pub field_names : List BrokerVariable → List String
field_names [] = []
field_names (v ∷ vs) = v.field_name ∷ field_names vs

abbrev pub variable_names : List DefaultVariable → List String
variable_names [] = []
variable_names (v ∷ vs) = v.name ∷ variable_names vs

contains-add_fields :
    (k : String) (vs : List BrokerVariable) (set : StringSet)
    → StringSet.contains k (add_fields vs set)
      ≡ (contains k (field_names vs) || StringSet.contains k set)
unfolding add_fields
contains-add_fields k [] set = refl
contains-add_fields k (v ∷ vs) set = ground (
  arith,
  contains-add_fields k vs (StringSet.add_one v.field_name set),
  contains-add_one k v.field_name set,
)

contains-add_names :
    (k : String) (vs : List DefaultVariable) (set : StringSet)
    → StringSet.contains k (add_names vs set)
      ≡ (contains k (variable_names vs) || StringSet.contains k set)
unfolding add_names
contains-add_names k [] set = refl
contains-add_names k (v ∷ vs) set =
    ground
      (arith, contains-add_names k vs (StringSet.add_one v.name set), contains-add_one k v.name set)

contains-declared_inputs :
    (k : String) (action : TfServiceDefinitionV1Action)
    → StringSet.contains k (declared_inputs action) ≡ (
        contains k (variable_names action.computed)
        || (contains k (field_names action.user_inputs)
            || contains k (field_names action.plan_inputs)))
unfolding declared_inputs
contains-declared_inputs k action =
    let plan = add_fields action.plan_inputs StringSet.empty in
    ground (
      arith,
      contains-add_names k action.computed (add_fields action.user_inputs plan),
      contains-add_fields k action.user_inputs plan,
      contains-add_fields k action.plan_inputs StringSet.empty,
      contains-empty k,
    )

module _ (fe : FieldErrors) (p : Printing) where
  missing-none : (fs : List String) (k : String) → missing fe p fs ≡ none → contains k fs ≡ false
  unfolding missing
  missing-none [] k h = refl
  missing-none (f ∷ fs) k h = absurd (fe.field_error_some "fields used but not declared" f fs h)

  -- An action whose template inputs are valid declares every variable that its templates read, as an
  -- input from the plan, as one from the user, or as a computed one.
  pub validate_template_inputs_sound :
      (action : TfServiceDefinitionV1Action) (tf_in : List String) (k : String)
      → validate_template_inputs fe p action ≡ none
      → inputs p.parse_hcl (module_of action) ≡ ok tf_in
      → contains k tf_in ≡ true
      → (contains k (variable_names action.computed)
          || (contains k (field_names action.user_inputs)
              || contains k (field_names action.plan_inputs)))
        ≡ true
  unfolding validate_template_inputs
  validate_template_inputs_sound action tf_in k h read used =
      let undeclared = StringSet.minus (new_string_set tf_in) (declared_inputs action) in
      ground (
        arith,
        used,
        missing-none (StringSet.to_slice undeclared) k (ground (arith, h, read)),
        holds-to_slice k undeclared,
        contains-minus k (new_string_set tf_in) (declared_inputs action),
        contains-new_string_set k tf_in,
        contains-declared_inputs k action,
      )
