-- ===== src/Tests/Plans.antt =====
-- A plan of the operator's.
use mathlib.Core.List.Memᴰ.{head}
use cloud_service_broker.Prelude.{◌≡◌, refl, true, [], ◌∷◌, is_some}
use cloud_service_broker.Prelude.StringMap.{lookup}
use cloud_service_broker.Outcome.{ok}
use cloud_service_broker.Json.{text}
use cloud_service_broker.Externals.{Externals}
use cloud_service_broker.Catalog.{ServicePlan}
use cloud_service_broker.Service.Schema.{BrokerVariable}
use cloud_service_broker.Service.Definition.{ServiceDefinition}
use cloud_service_broker.Service.Plans.{user_defined_plans, get_plan_by_id}
use cloud_service_broker.Service.Plans.Laws.{user_defined_plans_complete}
use cloud_service_broker.Tests.Scene.{world, region, service, plan}

-- The operator has configured one plan, with a region.
abbrev configured : Externals
configured = record world {
  viper_string = λ _. "plans";
  unmarshal_raw_list = λ _. ok ("raw" ∷ []);
  unmarshal_plan = λ _. ok plan;
  marshal_raw_map = λ _. ok "in_europe";
}

abbrev required_region : BrokerVariable
required_region = record region { required = true }

abbrev regional : ServiceDefinition (Unit {0})
regional = record service { plans = []; plan_variables = required_region ∷ [] }

abbrev custom : ServicePlan
custom = record plan { service_properties = ("region", text "europe") ∷ [] }

reads_plans : user_defined_plans configured regional ≡ ok (custom ∷ [])
unfolding user_defined_plans
reads_plans = refl

user_defined_plans_complete_example : is_some (lookup "region" custom.service_properties) ≡ true
user_defined_plans_complete_example =
    user_defined_plans_complete configured regional (custom ∷ []) custom required_region reads_plans
      (head refl) (head refl) refl

finds_plan : get_plan_by_id configured regional "p" ≡ ok custom
unfolding get_plan_by_id
finds_plan = refl
