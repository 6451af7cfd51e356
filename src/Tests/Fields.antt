-- ===== src/Tests/Fields.antt =====
-- Errors of fields that keep the first message, and a Terraform service that is valid.
use cloud_service_broker.Prelude.{
  ◌≡◌, ◌≢◌, refl, String, true, false, ◌==◌, Option, none, some, List, [], ◌∷◌, arith,
  if◌then◌else◌,
}
use cloud_service_broker.Prelude.Int.{pos}
use cloud_service_broker.Outcome.{ok, err, plain}
use cloud_service_broker.Json.{null}
use cloud_service_broker.Validation.{Formats}
use cloud_service_broker.Validation.Fields.{FieldErrors, AllNone}
use cloud_service_broker.Service.Schema.{BrokerVariable}
use cloud_service_broker.Tf.Definition.{TfServiceDefinitionV1Action, TfServiceDefinitionV1}
use cloud_service_broker.Tf.Definition.Templates.{Files}
use cloud_service_broker.Tf.Definition.Validity.{Printing}

unfoldable pub first_error : Option String → List (Option String) → Option String
first_error e [] = e
first_error none (e ∷ es) = first_error e es
first_error (some m) (e ∷ es) = some m

pub first_error-none :
    (e : Option String) (es : List (Option String))
    → e ≡ none
    → AllNone es
    → first_error e es ≡ none
unfolding first_error
first_error-none e [] h hs = h
first_error-none none (e ∷ es) h hs = first_error-none e es hs.0 hs.1
first_error-none (some m) (e ∷ es) h hs = h

pub first_error_collects :
    (e : Option String) (es : List (Option String))
    → first_error e es ≡ none
    → (e ≡ none) × AllNone es
unfolding first_error
first_error_collects e [] h = (h, tt)
first_error_collects none (e ∷ es) h = (refl, first_error_collects e es h)
first_error_collects (some m) (e ∷ es) h = absurd (ground (arith, h))

pub some_ne_none : (m : String) → some m ≢ none
some_ne_none m h = ground (arith, h)

abbrev pub messages : FieldErrors
messages = record {
  FieldError = String;
  also = first_error;
  via_field = λ _ e. e;
  via_field_index = λ _ _ e. e;
  via_field_key = λ _ _ e. e;
  missing_field = λ f. some f;
  invalid_value = λ v f. some v;
  field_error = λ s fs. some s;
  error_text = λ s. s;
  also_none = first_error-none;
  also_collects = first_error_collects;
  via_field_none = λ _ _ h. h;
  via_field_index_none = λ _ _ _ h. h;
  via_field_key_none = λ _ _ _ h. h;
  via_field_nil = λ _. refl;
  via_field_index_nil = λ _ _. refl;
  via_field_key_nil = λ _ _. refl;
  missing_field_some = λ f. some_ne_none f;
  invalid_value_some = λ v f. some_ne_none v;
  field_error_some = λ s f fs. some_ne_none s;
}

abbrev pub formats : Formats
formats = record { valid_json = λ _. true; parses_as_hcl = λ _. true; is_absolute_uri = λ _. true }

abbrev pub printing : Printing
printing = record {
  parse_hcl = λ s.
      if s == "tf"
      then ok (record { type_name = "variable"; labels = "region" ∷ [] } ∷ [])
      else ok [];
  sentinel = λ _. "error";
  print_int = λ _. "";
  print_strings = λ _. "";
  print_set = λ _. "";
}

abbrev pub files : Files
files = record { read_file = λ _. err (plain "no file"); join_path = λ a b. b }

abbrev variable : BrokerVariable
variable = record {
  required = false;
  field_name = "region";
  type_name = "string";
  details = "where";
  default_value = null;
  enumeration = [];
  constraints = [];
  prohibit_update = true;
}

abbrev pub action : List BrokerVariable → String → TfServiceDefinitionV1Action
action user_inputs template = record {
  plan_inputs = [];
  user_inputs = user_inputs;
  computed = [];
  template = template;
  template_ref = "";
  outputs = [];
  templates = [];
  template_refs = [];
  import_variables = [];
  import_parameter_mappings = [];
  import_parameters_to_delete = [];
  import_parameters_to_add = [];
}

abbrev pub provisioning : TfServiceDefinitionV1Action
provisioning = action (variable ∷ []) "tf"

abbrev uuid : String
uuid = "00000000-0000-0000-0000-000000000000"

abbrev pub definition : TfServiceDefinitionV1
definition = record {
  version = pos 1;
  name = "store";
  id = uuid;
  description = "d";
  display_name = "Store";
  image_url = "";
  documentation_url = "";
  support_url = "";
  tags = [];
  plans =
      record {
        name = "small";
        id = uuid;
        description = "d";
        display_name = "Small";
        bullets = [];
        free = false;
        properties = [];
        provision_overrides = [];
        bind_overrides = [];
      }
      ∷ [];
  provision_settings = provisioning;
  bind_settings = action [] "";
  examples = [];
  plan_updateable = true;
  required_env_vars = [];
}
