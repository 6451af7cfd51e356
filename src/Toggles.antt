-- ===== src/Toggles.antt =====
-- pkg/toggles/toggle.go: feature toggles, backed by viper.
use Prim.Native.String.{◌++◌ as append}
use cloud_service_broker.Prelude.{String, Bool, List, [], ◌∷◌, ◌++◌}
use cloud_service_broker.Prelude.Sorting.{sort_by}
use cloud_service_broker.Externals.{Externals}

pub record Toggle : Type 0 where
  pub name : String
  pub default_value : Bool
  pub description : String
  pub property_prefix : String

unfoldable pub viper_property : Toggle → String
viper_property toggle = append toggle.property_prefix toggle.name

unfoldable pub is_active : Externals → Toggle → Bool
unfolding viper_property
is_active x toggle = x.viper_bool (viper_property toggle)

pub record ToggleSet : Type 0 where
  pub toggles : List Toggle
  pub property_prefix : String

abbrev pub features : ToggleSet
features = record { toggles = []; property_prefix = "compatibility." }

abbrev toggle_name : Toggle → String
toggle_name t = t.name

unfoldable pub sorted_toggles : ToggleSet → List Toggle
sorted_toggles set = sort_by toggle_name set.toggles

abbrev pub new_toggle : ToggleSet → String → Bool → String → Toggle
new_toggle set name value description = record {
  name = name;
  default_value = value;
  description = description;
  property_prefix = set.property_prefix;
}

-- `ToggleSet.Toggle`. The default that it gives viper belongs to viper's answers.
unfoldable pub register_toggle : ToggleSet → String → Bool → String → Toggle × ToggleSet
register_toggle set name value description =
    let toggle = new_toggle set name value description in
    (toggle, record set { toggles = set.toggles ++ (toggle ∷ []) })
