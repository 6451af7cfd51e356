-- ===== src/Registry.antt =====
-- pkg/broker/registry.go: the services that the broker offers.
pub mod Laws
pub mod Register
use cloud_service_broker.Prelude.{
  String, Bool, true, false, not, ◌&&◌, none, some, List, [], ◌∷◌, ◌==◌, if◌then◌else◌,
}
use cloud_service_broker.Prelude.Rows.{find}
use cloud_service_broker.Prelude.StringMap.{StringMap}
use cloud_service_broker.Prelude.Sorting.{sort_by}
use cloud_service_broker.Outcome.{Result, ok, err, plain, wrapped, ◌>>=◌}
use cloud_service_broker.Externals.{Externals}
use cloud_service_broker.StringSet.{StringSet, new_string_set}
use cloud_service_broker.StringSet
use cloud_service_broker.Toggles.{Toggle, features, new_toggle, is_active}
use cloud_service_broker.Service.Definition.{ServiceDefinition}
use cloud_service_broker.Service.Plans.{catalog_entry}

-- `BrokerRegistry`: a map from names to definitions. A range over it takes the entries in any order;
-- the list is the order taken.
abbrev pub BrokerRegistry : Type 0 → Type 0
BrokerRegistry P = StringMap (ServiceDefinition P)

-- A tag that disables a service unless the toggle is active.
abbrev pub lifecycle_tag_toggles : List (String × Toggle)
lifecycle_tag_toggles =
    (
      "preview",
      new_toggle features "enable-preview-services" true
          "Enable services that are new to the broker this release.",
    )
    ∷ (
      "unmaintained",
      new_toggle features "enable-unmaintained-services" false
          "Enable broker services that are unmaintained.",
    )
    ∷ (
      "eol",
      new_toggle features "enable-eol-services" false
          "Enable broker services that are end of life.",
    )
    ∷ (
      "beta",
      new_toggle features "enable-gcp-beta-services" true
          "Enable services that are in GCP Beta. These have no SLA or support policy.",
    )
    ∷ (
      "deprecated",
      new_toggle features "enable-gcp-deprecated-services" false
          "Enable services that use deprecated GCP components.",
    )
    ∷ (
      "terraform",
      new_toggle features "enable-terraform-services" false
          "Enable services that use the experimental, unstable, Terraform back-end.",
    )
    ∷ []

abbrev pub enable_builtin_services : Toggle
enable_builtin_services =
    new_toggle features "enable-builtin-services" true
      "Enable services that are built in to the broker i.e. not brokerpaks."

abbrev pub has_service_id : {P : Type 0} → String → String × ServiceDefinition P → Bool
has_service_id id entry = entry.1.id == id

unfoldable pub get_service_by_id :
    {P : Type 0} → BrokerRegistry P → String → Result (ServiceDefinition P)
get_service_by_id registry id = elim (find (has_service_id id) registry) [
  | some entry ↦ ok entry.1
  | none ↦ err (wrapped "Unknown service ID: " (plain id) "")
]

unfoldable pub services : {P : Type 0} → BrokerRegistry P → List (ServiceDefinition P)
services [] = []
services ((_, svc) ∷ r) = svc ∷ services r

abbrev pub service_name : {P : Type 0} → ServiceDefinition P → String
service_name svc = svc.name

unfoldable pub get_all_services : {P : Type 0} → BrokerRegistry P → List (ServiceDefinition P)
unfolding services
get_all_services registry = sort_by service_name (services registry)

module _ (x : Externals) where
  -- The loop over `lifecycleTagToggles`.
  disabled_by_tag : List (String × Toggle) → StringSet → Bool
  disabled_by_tag [] tags = false
  disabled_by_tag ((tag, toggle) ∷ toggles) tags =
      if not (is_active x toggle) && StringSet.contains tag tags
      then true
      else disabled_by_tag toggles tags

  unfoldable pub is_enabled : {P : Type 0} → ServiceDefinition P → Result Bool
  unfolding disabled_by_tag
  is_enabled svc = do
    entry ← catalog_entry x svc
    let allowed = if svc.is_builtin then is_active x enable_builtin_services else true
    ok (
        if disabled_by_tag lifecycle_tag_toggles (new_string_set entry.tags)
        then false
        else allowed)

  unfoldable pub enabled_among :
      {P : Type 0} → List (ServiceDefinition P) → Result (List (ServiceDefinition P))
  enabled_among [] = ok []
  enabled_among (svc ∷ svcs) = do
    enabled ← is_enabled svc
    out ← enabled_among svcs
    ok (if enabled then svc ∷ out else out)

  unfoldable pub get_enabled_services :
      {P : Type 0} → BrokerRegistry P → Result (List (ServiceDefinition P))
  get_enabled_services registry = enabled_among (get_all_services registry)
