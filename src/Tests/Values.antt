-- ===== src/Tests/Values.antt =====
-- Variables, policies, migrations and sets.
use mathlib.Core.List.Memᴰ.{head, tail}
use cloud_service_broker.Prelude.{
  ◌≡◌, ◌≢◌, refl, String, Bool, true, false, ◌&&◌, Option, none, some, List, [], ◌∷◌, ◌==◌, eq_iff,
  arith,
}
use cloud_service_broker.Prelude.StringMap.{lookup}
use cloud_service_broker.Outcome.{ok, plain}
use cloud_service_broker.Json.{text, Object}
use cloud_service_broker.VarContext.{VarContext}
use cloud_service_broker.Service.Variables.{
  input_defaults, build_and_validate, variables, provision_global_defaults,
  provision_default_overrides,
}
use cloud_service_broker.Service.Precedence.{variables_precedence, variables_undecoded}
use cloud_service_broker.StringSet
use cloud_service_broker.StringSet.{StringSet, new_string_set, minus, equals}
use cloud_service_broker.Policy.{
  validate_policies, validate_keys, check_assertions_from, check_assertions, apply_from, applies_to,
  Condition, PolicyList, declared, apply, validate,
}
use cloud_service_broker.Policy.Laws.{last_declaration, lookup-apply, validate-assertions}
use cloud_service_broker.Migration.{migrate_env}
use cloud_service_broker.Migration.Laws.{lookup-migrate_env}
use cloud_service_broker.Service.Schema.{validate_variables}
use cloud_service_broker.VarContext.Builder.{
  merge_json_object, merge_defaults, merge_default, build,
}
use cloud_service_broker.Tests.Scene.{world, service, plan}

abbrev resolved : VarContext
resolved = record { errors = []; context = ("region", text "europe") ∷ [] }

no_global : provision_global_defaults world ≡ ok []
unfolding provision_global_defaults
no_global = refl

no_overrides : provision_default_overrides world service ≡ ok []
unfolding provision_default_overrides
no_overrides = refl

resolves : variables world service [] "in_europe" "{}" plan ≡ ok resolved
unfolding variables build_and_validate build merge_defaults input_defaults merge_default
    merge_json_object validate_variables
resolves = refl

variables_precedence_example : lookup "region" resolved.context ≡ some (text "europe")
variables_precedence_example =
    variables_precedence world service "region" [] [] [] "in_europe" "{}" plan resolved no_global
      no_overrides resolves refl refl

variables_undecoded_example : variables world service [] "{}" "garbled" plan ≢ ok resolved
variables_undecoded_example =
    variables_undecoded world service [] "{}" "garbled" "garbled" plan (plain "garbled") resolved
      (tail (head refl)) refl refl

abbrev in_test : Condition
in_test = ("stage", "test") ∷ []

-- A policy for every stage, and one for tests.
abbrev sizes : PolicyList
sizes = record {
  policies =
      (record { comment = ""; condition = []; declarations = some (("size", text "large") ∷ []) })
      ∷ (record {
        comment = "";
        condition = in_test;
        declarations = some (("size", text "small") ∷ []);
      })
      ∷ [];
  assertions =
      (record {
        comment = "";
        condition = in_test;
        declarations = some (("size", text "small") ∷ []);
      })
      ∷ [];
}

-- An equality that is sound, on maps of one text.
abbrev same_text : Object → Option Object → Bool
same_text ((k, text v) ∷ []) (some ((j, text w) ∷ [])) = (k == j) && (v == w)
same_text _ _ = false

same_text_sound :
    (x : Object) (y : Option Object) (j : String)
    → same_text x y ≡ true
    → lookup j x ≡ lookup j (declared y)
same_text_sound ((k, text v) ∷ []) (some ((i, text w) ∷ [])) j h =
    ground (arith, h, eq_iff k i, eq_iff v w)
same_text_sound _ _ j h = ground (arith, h)

abbrev print_keys : StringSet → List String → String
print_keys _ _ = "keys"

lookup-apply_example :
    lookup "size" (apply sizes in_test) ≡ last_declaration "size" sizes.policies in_test
lookup-apply_example = lookup-apply "size" sizes in_test

sizes_valid : validate print_keys same_text ("stage" ∷ []) sizes ≡ ok tt
unfolding validate validate_policies validate_keys StringSet.is_empty minus
    StringSet.new_string_set_from_string_map_keys new_string_set check_assertions
    check_assertions_from apply apply_from applies_to
sizes_valid = refl

abbrev staged : PolicyList
staged = record {
  policies = (record { comment = ""; condition = in_test; declarations = none }) ∷ [];
  assertions = [];
}

staged_valid : validate print_keys same_text ("stage" ∷ []) staged ≡ ok tt
unfolding validate validate_policies validate_keys StringSet.is_empty minus
    StringSet.new_string_set_from_string_map_keys new_string_set check_assertions
    check_assertions_from
staged_valid = refl

validate-assertions_example : last_declaration "size" sizes.policies in_test ≡ some (text "small")
validate-assertions_example =
    validate-assertions print_keys same_text ("stage" ∷ []) sizes
      (record {
        comment = "";
        condition = in_test;
        declarations = some (("size", text "small") ∷ []);
      })
      "size" same_text_sound sizes_valid (head refl)

lookup-migrate_env_example :
    lookup "GSB_SERVICE_GOOGLE_PUBSUB_WHITELIST"
      (migrate_env (("GSB_SERVICE_GOOGLE_PUBSUB_WHITELIST", "x") ∷ []))
    ≡ some (record { old = "x"; new = "" })
lookup-migrate_env_example =
    lookup-migrate_env "GSB_SERVICE_GOOGLE_PUBSUB_WHITELIST"
      (("GSB_SERVICE_GOOGLE_PUBSUB_WHITELIST", "x") ∷ [])

abbrev letters : StringSet
letters = record { elements = "a" ∷ "b" ∷ [] }

abbrev vowels : StringSet
vowels = record { elements = "a" ∷ [] }
