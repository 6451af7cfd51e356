-- ===== src/Tests/Scene.antt =====
-- A broker with one service and one plan, and states of its tables.
use cloud_service_broker.Prelude.{
  String, true, false, Option, none, some, [], ◌∷◌, ◌==◌, if◌then◌else◌,
}
use cloud_service_broker.Outcome.{Error, ok, err, plain}
use cloud_service_broker.Outcome.Exec.{pure}
use cloud_service_broker.Json.{null, text, Object}
use cloud_service_broker.Models.{ServiceInstanceDetails, ProvisionRequestDetails}
use cloud_service_broker.Catalog.{ServicePlan}
use cloud_service_broker.Externals.{Externals}
use cloud_service_broker.Gorm.Memory.{memory}
use cloud_service_broker.Dao.Instances.{instance_key}
use cloud_service_broker.Dao.Bindings.{same_binding, stamp_binding}
use cloud_service_broker.Dao.Requests.{same_request, stamp_request}
use cloud_service_broker.Service.Schema.{BrokerVariable}
use cloud_service_broker.Service.Provider.{ServiceProvider, DeprovisionDetails}
use cloud_service_broker.Service.Definition.{ServiceDefinition}
use cloud_service_broker.Service.Variables.{ProvisionDetails, UpdateDetails, BindDetails}
use cloud_service_broker.Broker.State.{CredStore, ServiceBroker, State}
use cloud_service_broker.Broker.Checks.{UnbindDetails}

-- The text `in_europe` decodes to one parameter, `garbled` does not decode.
abbrev decode : String → Object × Option Error
decode s =
    if s == "in_europe"
    then (("region", text "europe") ∷ [], none)
    else if s == "garbled"
    then ([], some (plain "garbled"))
    else ([], none)

abbrev pub world : Externals
world = record {
  valid_json = λ _. true;
  unmarshal_object = decode;
  unmarshal_slice = λ _. ok null;
  unmarshal_raw_list = λ _. ok [];
  unmarshal_raw_map = λ _. ok [];
  unmarshal_string_map = λ _. [];
  unmarshal_plan = λ _. err (plain "no plan");
  marshal_plan = λ _. ok "";
  marshal_object = λ _. ok "{}";
  marshal_raw_map = λ _. ok "{}";
  eval = λ s _. ok (text s);
  is_hil_expression = λ _. false;
  is_space = λ _. false;
  to_upper = λ s. s;
  trim_space = λ s. s;
  to_string = λ _. ok "";
  to_string_map = λ v. ok v;
  to_bool = λ v. ok v;
  to_slice = λ v. ok v;
  to_float64 = λ v. ok v;
  to_int = λ v. ok v;
  replace_invalid_label_chars = λ s. s;
  replace_property_chars = λ s. s;
  trim_prefix = λ _ s. s;
  schema_errors = λ _ _. ok [];
  viper_is_set = λ _. false;
  viper_string = λ _. "";
  viper_bool = λ _. false;
  viper_string_map = λ _. [];
  getenv = λ _. "";
}

abbrev pub sentinel : Error → String
sentinel e = "error"

abbrev pub details_of : String → ServiceInstanceDetails
details_of operation = record {
  id = "i";
  name = "";
  location = "";
  url = "";
  other_details = "";
  service_id = "s";
  plan_id = "p";
  space_guid = "";
  organization_guid = "";
  operation_type = operation;
  operation_id = "op";
}

abbrev pub provider : ServiceProvider (Unit {0})
provider = record {
  provision = λ _. pure (details_of "provision");
  update = λ _. pure (details_of "update");
  bind = λ _. pure [];
  build_instance_credentials = λ _ _. pure (("password", text "secret") ∷ []);
  unbind = λ _ _ _. pure tt;
  deprovision = λ _ _ _. pure (some "op");
  poll_instance =
      λ d. if d.operation_type == "update" then pure (false, "busy") else pure (true, "done");
  provisions_async = true;
  deprovisions_async = true;
  update_instance_details = λ d. pure d;
}

abbrev pub plan : ServicePlan
plan = record {
  id = "p";
  name = "small";
  description = "";
  free = none;
  metadata = none;
  schemas = none;
  service_properties = [];
  provision_overrides = [];
  bind_overrides = [];
}

abbrev pub region : BrokerVariable
region = record {
  required = false;
  field_name = "region";
  type_name = "string";
  details = "";
  default_value = text "us";
  enumeration = [];
  constraints = [];
  prohibit_update = true;
}

abbrev pub service : ServiceDefinition (Unit {0})
service = record {
  id = "s";
  name = "store";
  description = "";
  display_name = "";
  image_url = "";
  documentation_url = "";
  support_url = "";
  tags = [];
  bindable = true;
  plan_updateable = true;
  plans = plan ∷ [];
  provision_input_variables = region ∷ [];
  provision_computed_variables = [];
  bind_input_variables = [];
  bind_output_variables = [];
  bind_computed_variables = [];
  examples = [];
  plan_variables = [];
  provider = provider;
  is_builtin = false;
}

abbrev pub vault : CredStore (Unit {0})
vault = record {
  put = λ _ _. pure tt;
  delete = λ _. pure tt;
  add_permission = λ _ _ _. pure tt;
  delete_permission = λ _. pure tt;
}

abbrev pub broker : ServiceBroker (Unit {0}) (Unit {0})
broker = record {
  externals = world;
  registry = ("store", service) ∷ [];
  credstore = some vault;
  instance_gorm = memory (λ a b. instance_key a == instance_key b) (λ _ r. r);
  binding_gorm = memory same_binding stamp_binding;
  request_gorm = memory same_request stamp_request;
}

abbrev pub request : ProvisionRequestDetails
request = record { id = 1; service_instance_id = "i"; request_details = "" }

abbrev pub empty : State broker
empty = record { instances = []; bindings = []; requests = []; provider = tt; creds = tt }

-- One instance, whose last operation has this type.
abbrev pub one_instance : String → State broker
one_instance operation = record {
  instances = details_of operation ∷ [];
  bindings = [];
  requests = request ∷ [];
  provider = tt;
  creds = tt;
}

abbrev pub to_provision : ProvisionDetails
to_provision = record {
  service_id = "s";
  plan_id = "p";
  organization_guid = "";
  space_guid = "";
  raw_context = "";
  raw_parameters = "in_europe";
}

abbrev pub to_update : String → UpdateDetails
to_update parameters = record {
  service_id = "s";
  plan_id = "p";
  raw_parameters = parameters;
  previous_org_id = "";
  previous_space_id = "";
}

abbrev pub to_bind : BindDetails
to_bind = record {
  service_id = "s";
  plan_id = "p";
  app_guid = "app";
  bind_resource = none;
  raw_parameters = "";
}

abbrev pub to_unbind : UnbindDetails
to_unbind = record { service_id = "s"; plan_id = "p" }

abbrev pub to_deprovision : String → DeprovisionDetails
to_deprovision plan_id = record { service_id = "s"; plan_id = plan_id }
