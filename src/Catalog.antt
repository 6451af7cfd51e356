-- ===== src/Catalog.antt =====
-- pkg/broker/catalog.go: plans and catalog entries.
use cloud_service_broker.Prelude.{String, Bool, Option, List, map}
use cloud_service_broker.Json.{Object}

-- The schemas of the parameters of a provision and of a bind call.
pub record ServiceSchemas : Type 0 where
  pub instance_create : Object
  pub binding_create : Object

-- `brokerapi.ServicePlanMetadata`, with the fields that the program sets.
pub record ServicePlanMetadata : Type 0 where
  pub bullets : List String
  pub display_name : String

pub record ServicePlan : Type 0 where
  pub id : String
  pub name : String
  pub description : String
  pub free : Option Bool
  pub metadata : Option ServicePlanMetadata
  pub schemas : Option ServiceSchemas
  pub service_properties : Object
  pub provision_overrides : Object
  pub bind_overrides : Object

unfoldable pub get_service_properties : ServicePlan → Object
get_service_properties sp = sp.service_properties

pub record ServiceMetadata : Type 0 where
  pub display_name : String
  pub long_description : String
  pub documentation_url : String
  pub image_url : String
  pub support_url : String

pub record Service : Type 0 where
  pub id : String
  pub name : String
  pub description : String
  pub metadata : ServiceMetadata
  pub tags : List String
  pub bindable : Bool
  pub plan_updatable : Bool
  pub plans : List ServicePlan

-- `brokerapi.ServicePlan` and `brokerapi.Service`
pub record PlainPlan : Type 0 where
  pub id : String
  pub name : String
  pub description : String
  pub free : Option Bool
  pub metadata : Option ServicePlanMetadata
  pub schemas : Option ServiceSchemas

pub record PlainService : Type 0 where
  pub id : String
  pub name : String
  pub description : String
  pub metadata : ServiceMetadata
  pub tags : List String
  pub bindable : Bool
  pub plan_updatable : Bool
  pub plans : List PlainPlan

plain_plan : ServicePlan → PlainPlan
plain_plan plan = record {
  id = plan.id;
  name = plan.name;
  description = plan.description;
  free = plan.free;
  metadata = plan.metadata;
  schemas = plan.schemas;
}

unfoldable pub to_plain : Service → PlainService
unfolding plain_plan
to_plain s = record {
  id = s.id;
  name = s.name;
  description = s.description;
  metadata = s.metadata;
  tags = s.tags;
  bindable = s.bindable;
  plan_updatable = s.plan_updatable;
  plans = map plain_plan s.plans;
}
